-- ===== src/Json/Laws.antt =====
-- What is written under a key is read back.
use allgres.Base.{some, ◌≡◌, ◌≢◌, arith}
use allgres.Bytes.{Bytes}
use allgres.Bytes.Compare.{same_iff, same_refl}
use allgres.Json.{
  Json, null, str, obj, Fields, end, field, lookup_field, insert_field, get, get_str, set_key,
}

lookup_field-insert_field :
    (k : Bytes) (v : Json) (fs : Fields) → lookup_field k (insert_field k v fs) ≡ some v
unfolding lookup_field insert_field
lookup_field-insert_field k v end = ground (arith, same_refl k)
lookup_field-insert_field k v (field j w fs) =
    ground (arith, same_refl k, same_iff j k, lookup_field-insert_field k v fs)

lookup_field-insert_ne :
    (j k : Bytes) (v : Json) (fs : Fields)
    → j ≢ k
    → lookup_field j (insert_field k v fs) ≡ lookup_field j fs
unfolding lookup_field insert_field
lookup_field-insert_ne j k v end h = ground (arith, same_iff k j)
lookup_field-insert_ne j k v (field i w fs) h =
    ground (arith, same_iff k j, same_iff i j, same_iff i k, lookup_field-insert_ne j k v fs)

-- A string that is set under a key is what the key holds, and every other key is as before.
pub get_str-set_key :
    (k s : Bytes) (v w : Json) → set_key k (str s) v ≡ some w → get_str k w ≡ some s
unfolding get_str get set_key lookup_field
get_str-set_key k s null w e = ground (arith, same_refl k)
get_str-set_key k s (obj fs) w e = ground (arith, lookup_field-insert_field k (str s) fs)
get_str-set_key k s _ w e = ground arith

pub get_str-set_ne :
    (j k : Bytes) (x v w : Json) → j ≢ k → set_key k x v ≡ some w → get_str j w ≡ get_str j v
unfolding get_str get set_key lookup_field
get_str-set_ne j k x null w h e = ground (arith, same_iff k j)
get_str-set_ne j k x (obj fs) w h e = ground (arith, lookup_field-insert_ne j k x fs)
get_str-set_ne j k x _ w h e = ground arith
