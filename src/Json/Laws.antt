-- ===== src/Json/Laws.antt =====
-- The laws of `get`, `put` and `delete` that the components' proofs use.
use gatebroker.Prelude.{
  String, ◌≡◌, refl, true, false, none, some, arith, if◌then◌else◌, str_eq, eq_iff, eq_refl,
}
use gatebroker.Json.{
  Value, str, Items, nil, cons, Fields, end, field, get, put, delete, mem_str, append_item,
}

pub get-put :
    (k j : String) (v : Value) (fs : Fields)
    → get j (put k v fs) ≡ (if str_eq k j then some v else get j fs)
unfolding get put
get-put k j v end = refl
get-put k j v (field i w fs) = ground (arith, eq_iff k j, eq_iff i k, eq_iff i j, get-put k j v fs)

pub get-put_self : (k : String) (v : Value) (fs : Fields) → get k (put k v fs) ≡ some v
get-put_self k v fs = simp (get-put, eq_refl)

pub get-put_ne :
    (k j : String) (v : Value) (fs : Fields) → str_eq k j ≡ false → get j (put k v fs) ≡ get j fs
get-put_ne k j v fs h = rw get-put (rw h)

pub get-delete :
    (k j : String) (fs : Fields) → get j (delete k fs) ≡ (if str_eq k j then none else get j fs)
unfolding get delete
get-delete k j end = ground arith
get-delete k j (field i w fs) =
    ground (arith, eq_iff k j, eq_iff i k, eq_iff i j, get-delete k j fs)

pub mem_str-append_item : (s : String) (vs : Items) → mem_str s (append_item vs (str s)) ≡ true
unfolding mem_str append_item
mem_str-append_item s nil = rw eq_refl
mem_str-append_item s (cons v vs) = ground (arith, mem_str-append_item s vs)
