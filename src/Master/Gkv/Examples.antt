-- ===== src/Master/Gkv/Examples.antt =====
-- The calls of src/master/syscall/gkv.rs on small tables.
use template_worker.Prelude.{ℕ, ◌≡◌, ◌⊎◌, refl, true, String, Option, none, some, ok, str_beq}
use template_worker.Prelude.Int.{pos}
use template_worker.Prelude.Rows.{first}
use template_worker.Geese.State.Tables.{GlobalRow}
use template_worker.Geese.State.Global.{at_global_key}
use template_worker.Geese.State.Examples.{small_world, small_db}
use template_worker.Master.Gkv.{PartialGlobalKv, get_global_kv_call, is_offered}
use template_worker.Master.Gkv.Laws.{get_global_kv_call-eq-ok}

abbrev no_faults : ℕ → Option String
no_faults n = none

abbrev shop : PartialGlobalKv ℕ
shop = record {
  key = "shop";
  version = pos 1;
  owner_id = "11";
  owner_type = "user";
  price = none;
  short = "";
  public_metadata = 0;
  scope = "s";
  created_at = 1;
  last_updated_at = 1;
  public_data = true;
  review_state = "approved";
  long = none;
  value = some 9;
}

shown : (get_global_kv_call small_world no_faults "s" "shop" (pos 1) small_db).1 ≡ ok shop
unfolding get_global_kv_call first at_global_key
shown = refl

get_global_kv_call-eq-ok_example :
    (r : GlobalRow ℕ) × (first
        (is_offered small_world no_faults "shop" (pos 1) "s")
        small_db.global_kv
      ≡ some r)
    × (str_beq r.review_state "approved" ≡ true)
    × (r.price ≡ none)
    × (r.public_data ≡ true)
    × ((shop.value ≡ none)
        ⊎ ((shop.price ≡ none) × (shop.public_data ≡ true) × (some r.value ≡ shop.value)))
get_global_kv_call-eq-ok_example =
    get_global_kv_call-eq-ok small_world no_faults "s" "shop" (pos 1) small_db shop shown
