-- ===== src/Protocol/ParamValue/Strings.antt =====
-- Parameters as texts: which lists convert, and the width that they need.
use dart_odbc_fast.Prelude.{
  ℕ, ◌≤◌, max, Bool, true, false, List, [], ◌∷◌, length, any, ok, err, ◌≡◌, refl, arith, All, ◌⊎◌,
  inl, inr, Option, none, some,
}
use dart_odbc_fast.Wire.{Bytes}
use dart_odbc_fast.Error.{OdbcError}
use dart_odbc_fast.Protocol.ParamValue.{
  ParamValue, string, integer, big_int, decimal, binary, null, ref_cursor_out, param_to_string,
  param_values_to_strings, is_null_param, has_null_param, string_len, max_len_from,
  max_param_string_len,
}

abbrev pub is_ref_cursor : ParamValue → Bool
is_ref_cursor ref_cursor_out = true
is_ref_cursor _ = false

abbrev pub is_none : Option Bytes → Bool
is_none none = true
is_none (some s) = false

-- The two ways in which a conversion ends.
abbrev pub Converts : List ParamValue → Type 0
Converts ps =
    ((out : List (Option Bytes)) × (param_values_to_strings ps ≡ ok out)
      × (length out ≡ length ps)
      × (has_null_param ps ≡ any is_none out)
      × (any is_ref_cursor ps ≡ false))
    ⊎ ((e : OdbcError) × (param_values_to_strings ps ≡ err e) × (any is_ref_cursor ps ≡ true))

Converts-step :
    (p : ParamValue) (ps : List ParamValue) (s : Option Bytes)
    → param_to_string p ≡ ok s
    → is_ref_cursor p ≡ false
    → is_null_param p ≡ is_none s
    → Converts ps
    → Converts (p ∷ ps)
unfolding param_values_to_strings has_null_param
Converts-step p ps s e r n (inl (out, h, k, m, c)) =
    inl (s ∷ out, rw (e, h) refl, omega arith, ground arith, rw (r, any) c)
Converts-step p ps s e r n (inr (x, h, c)) = inr (x, rw (e, h) refl, rw (r, any) c)

-- The conversion to texts fails exactly when the list has a `RefCursorOut`; otherwise there is one
-- text for each parameter, and `has_null_param` tells whether one of them is NULL.
param_values_to_strings_lem : (ps : List ParamValue) → Converts ps
unfolding param_values_to_strings param_to_string has_null_param
param_values_to_strings_lem [] = inl ([], refl, refl, refl, refl)
param_values_to_strings_lem (null ∷ ps) =
    Converts-step null ps none refl refl refl (param_values_to_strings_lem ps)
param_values_to_strings_lem (string s ∷ ps) =
    Converts-step (string s) ps (some s) refl refl refl (param_values_to_strings_lem ps)
param_values_to_strings_lem (integer z ∷ ps) =
    Converts-step (integer z) ps _ refl refl refl (param_values_to_strings_lem ps)
param_values_to_strings_lem (big_int z ∷ ps) =
    Converts-step (big_int z) ps _ refl refl refl (param_values_to_strings_lem ps)
param_values_to_strings_lem (decimal s ∷ ps) =
    Converts-step (decimal s) ps (some s) refl refl refl (param_values_to_strings_lem ps)
param_values_to_strings_lem (binary b ∷ ps) =
    Converts-step (binary b) ps _ refl refl refl (param_values_to_strings_lem ps)
param_values_to_strings_lem (ref_cursor_out ∷ ps) = inr (_, refl, refl)

abbrev pub WithinLen : ℕ → List ParamValue → Type 0
WithinLen m ps = All (λ p. string_len p ≤ m) ps

WithinLen-mono : (m n : ℕ) (ps : List ParamValue) → m ≤ n → WithinLen m ps → WithinLen n ps
WithinLen-mono m n [] h w = tt
WithinLen-mono m n (p ∷ ps) h w = (omega arith, WithinLen-mono m n ps h w.1)

max_len_from_lem :
    (k : ℕ) (ps : List ParamValue) → (k ≤ max_len_from k ps) × WithinLen (max_len_from k ps) ps
unfolding max_len_from
max_len_from_lem k [] = omega arith
max_len_from_lem k (p ∷ ps) =
    let (low, all) = max_len_from_lem (max k (string_len p)) ps in (omega arith, (omega arith, all))

max_len_from-le : (k m : ℕ) (ps : List ParamValue) → k ≤ m → WithinLen m ps → max_len_from k ps ≤ m
unfolding max_len_from
max_len_from-le k m [] h w = h
max_len_from-le k m (p ∷ ps) h w = max_len_from-le (max k (string_len p)) m ps (omega arith) w.1

-- `max_param_string_len` is the least width of at least 1 that holds every text, decimal and
-- hexadecimal rendering in the list.
max_param_string_len_lem :
    (ps : List ParamValue)
    → (1 ≤ max_param_string_len ps)
      × WithinLen (max_param_string_len ps) ps
      × ((m : ℕ) → 1 ≤ m → WithinLen m ps → max_param_string_len ps ≤ m)
unfolding max_param_string_len
max_param_string_len_lem ps =
    let (low, all) = max_len_from_lem 1 ps in (low, all, λ m h w. max_len_from-le 1 m ps h w)
