-- ===== src/Soroban/ScVal.antt =====
-- internal/soroban/scval.go: from contract values to plain Go values. `ScVal` has the variants of
-- xdr.ScVal that `Native` tells apart; an unmarshalled value always carries the arm of its type.
-- The encoding of addresses (strkey) and the base64 and XDR readers are parameters, and so is the
-- text that `%v` makes of a map key that is no scalar.
pub mod Wide
use Prim.Native.Nat.{bit_and, bit_or}
use lumen_liquid_backend.Base.{
  ℕ, ◌-◌, ◌^◌, Bool, true, false, Option, none, some, if◌then◌else◌, ◌==◌, text_eq,
}
use lumen_liquid_backend.Base.Int.{ℤ, pos, negsuc, ◌*ℤ◌}
use lumen_liquid_backend.Base.Text.{Text, codes, print_ℕ, print_ℤ}

pub data Address : Type 0 where
  account : Option Text → Address
  contract : Text → Address
  other : Address

mutual
  pub data ScVal : Type 0 where
    sc_bool : Bool → ScVal
    sc_void : ScVal
    sc_u32 : ℕ → ScVal
    sc_i32 : ℤ → ScVal
    sc_u64 : ℕ → ScVal
    sc_i64 : ℤ → ScVal
    sc_u128 : ℕ → ℕ → ScVal
    sc_i128 : ℤ → ℕ → ScVal
    sc_u256 : ℕ → ℕ → ℕ → ℕ → ScVal
    sc_i256 : ℤ → ℕ → ℕ → ℕ → ScVal
    sc_bytes : Text → ScVal
    sc_string : Text → ScVal
    sc_symbol : Text → ScVal
    sc_address : Address → ScVal
    sc_vec_nil : ScVal
    sc_vec : ScVals → ScVal
    sc_map_nil : ScVal
    sc_map : ScEntries → ScVal
    sc_other : ℕ → ScVal

  pub data ScVals : Type 0 where
    no_vals : ScVals
    val_cons : ScVal → ScVals → ScVals

  pub data ScEntries : Type 0 where
    no_entries : ScEntries
    entry : ScVal → ScVal → ScEntries → ScEntries

-- What `Native` returns as `any`.
mutual
  pub data Value : Type 0 where
    null : Value
    boolean : Bool → Value
    uint32 : ℕ → Value
    int32 : ℤ → Value
    uint64 : ℕ → Value
    int64 : ℤ → Value
    big : ℤ → Value
    bytes : Text → Value
    string : Text → Value
    vec : Items → Value
    fields : Fields → Value
    raw : ℕ → Value

  pub data Items : Type 0 where
    nil : Items
    cons : Value → Items → Items

  pub data Fields : Type 0 where
    end : Fields
    field : Text → Value → Fields → Fields

-- What is outside of src/: strkey, base64 with XDR, and `%v` of a value that is no scalar.
pub record Codec : Type 0 where
  pub encode_account : Text → Option Text
  pub encode_contract : Text → Option Text
  pub decode_b64 : Text → Option ScVal
  pub sprint : Value → Text

-- `z.Or` of math/big: two's complement.
unfoldable pub or_ℤ : ℤ → ℤ → ℤ
or_ℤ (pos a) (pos b) = pos (bit_or a b)
or_ℤ (pos a) (negsuc b) = negsuc (b - bit_and b a)
or_ℤ (negsuc a) (pos b) = negsuc (a - bit_and a b)
or_ℤ (negsuc a) (negsuc b) = negsuc (bit_and a b)

-- `z.Lsh(z, 64)`
unfoldable pub lsh64 : ℤ → ℤ
lsh64 z = z *ℤ pos (2 ^ 64)

unfoldable pub u128_to_big : ℕ → ℕ → ℤ
u128_to_big hi lo = or_ℤ (lsh64 (pos hi)) (pos lo)

unfoldable pub i128_to_big : ℤ → ℕ → ℤ
i128_to_big hi lo = or_ℤ (lsh64 hi) (pos lo)

unfoldable pub u256_to_big : ℕ → ℕ → ℕ → ℕ → ℤ
u256_to_big hi_hi hi_lo lo_hi lo_lo =
    or_ℤ (lsh64 (or_ℤ (lsh64 (or_ℤ (lsh64 (pos hi_hi)) (pos hi_lo))) (pos lo_hi))) (pos lo_lo)

unfoldable pub i256_to_big : ℤ → ℕ → ℕ → ℕ → ℤ
i256_to_big hi_hi hi_lo lo_hi lo_lo =
    or_ℤ (lsh64 (or_ℤ (lsh64 (or_ℤ (lsh64 hi_hi) (pos hi_lo))) (pos lo_hi))) (pos lo_lo)

-- `m[k] = v`, and `m[k]`, which is nil for a missing key.
unfoldable pub set_field : Text → Value → Fields → Fields
set_field k v end = field k v end
set_field k v (field j w m) = if j == k then field j v m else field j w (set_field k v m)

unfoldable pub get_field : Text → Fields → Value
get_field k end = null
get_field k (field j v m) = if j == k then v else get_field k m

module _ (x : Codec) where
  unfoldable pub address_to_strkey : Address → Option Text
  address_to_strkey (account none) = none
  address_to_strkey (account (some key)) = x.encode_account key
  address_to_strkey (contract c) = x.encode_contract c
  address_to_strkey other = none

  -- `fmt.Sprintf("%v", kn)`
  unfoldable pub key_text : Value → Text
  key_text (string s) = s
  key_text (uint32 n) = print_ℕ n
  key_text (uint64 n) = print_ℕ n
  key_text (int32 z) = print_ℤ z
  key_text (int64 z) = print_ℤ z
  key_text (big z) = print_ℤ z
  key_text (boolean true) = codes "true"
  key_text (boolean false) = codes "false"
  key_text null = codes "<nil>"
  key_text v = x.sprint v

  address_value : Option Text → Option Value
  address_value none = none
  address_value (some s) = some (string s)

  vec_value : Option Items → Option Value
  vec_value none = none
  vec_value (some xs) = some (vec xs)

  cons_value : Option Value → Option Items → Option Items
  cons_value none xs = none
  cons_value (some v) none = none
  cons_value (some v) (some xs) = some (cons v xs)

  fields_value : Option Fields → Option Value
  fields_value none = none
  fields_value (some m) = some (fields m)

  -- One round of the loop over a map: the entry goes into `out`, then the rest is read.
  put_entry : Option Value → Option Value → (Fields → Option Fields) → Fields → Option Fields
  put_entry none v rest out = none
  put_entry (some k) none rest out = none
  put_entry (some k) (some v) rest out = rest (set_field (key_text k) v out)

  -- `Native`; `none` is an error.
  unfoldable mutual
    unfolding address_to_strkey key_text address_value vec_value cons_value fields_value put_entry

    pub native : ScVal → Option Value
    native (sc_bool b) = some (boolean b)
    native sc_void = some null
    native (sc_u32 n) = some (uint32 n)
    native (sc_i32 z) = some (int32 z)
    native (sc_u64 n) = some (uint64 n)
    native (sc_i64 z) = some (int64 z)
    native (sc_u128 hi lo) = some (big (u128_to_big hi lo))
    native (sc_i128 hi lo) = some (big (i128_to_big hi lo))
    native (sc_u256 a b c d) = some (big (u256_to_big a b c d))
    native (sc_i256 a b c d) = some (big (i256_to_big a b c d))
    native (sc_bytes s) = some (bytes s)
    native (sc_string s) = some (string s)
    native (sc_symbol s) = some (string s)
    native (sc_address a) = address_value (address_to_strkey a)
    native sc_vec_nil = some (vec nil)
    native (sc_vec vs) = vec_value (native_vec vs)
    native sc_map_nil = some (fields end)
    native (sc_map es) = fields_value (native_map es end)
    native (sc_other n) = some (raw n)

    pub native_vec : ScVals → Option Items
    native_vec no_vals = some nil
    native_vec (val_cons v vs) = cons_value (native v) (native_vec vs)

    pub native_map : ScEntries → Fields → Option Fields
    native_map no_entries out = some out
    native_map (entry k v es) out = put_entry (native k) (native v) (native_map es) out
