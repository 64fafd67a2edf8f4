-- ===== src/Messages/Objects.antt =====
-- Dictionaries of messages: what taking out one key and setting another leave as it was.
use rtc_asr.Prelude.{
  ◌≡◌, refl, sym, ap, ◌∙◌, Bool, true, false, some, String, if◌then◌else◌, if_case, ◌⊎◌, inl, inr,
  Bool-cases,
}
use text.Mathlib.Text.{◌==◌ as str_eq}
use text.Mathlib.TextEquality.{eq_iff}
use rtc_asr.Json.{Value, Fields, end, field, lookup, insert}
use rtc_asr.Messages.{remove, drop_if}

pub str_eq→eq : (s t : String) → str_eq s t ≡ true → s ≡ t
str_eq→eq s t = (eq_iff s t).0

pub lookup_field :
    (key k : String) (v : Value) (rest : Fields) (b : Bool)
    → str_eq k key ≡ b
    → lookup key (field k v rest) ≡ (if b then some v else lookup key rest)
unfolding lookup
lookup_field key k v rest b e = rw e refl

-- Another key than the one that is taken out is found as before.
pub lookup-remove :
    (key gone : String) (d : Fields)
    → str_eq gone key ≡ false
    → lookup key (remove gone d) ≡ lookup key d
unfolding lookup
lookup-remove key gone end other = refl
lookup-remove key gone (field k v rest) other =
    if_case (λ (d : Fields). lookup key d ≡ lookup key (field k v rest)) (str_eq gone k)
      (λ e.
        let same : str_eq k key ≡ false =
          ap (λ s. str_eq s key) (sym (str_eq→eq gone k e)) ∙ other in
        sym (lookup_field key k v rest false same))
      (λ _. field_same (str_eq k key) refl (lookup-remove key gone rest other))
  where
    field_same :
        (b : Bool)
        → str_eq k key ≡ b
        → lookup key (remove gone rest) ≡ lookup key rest
        → lookup key (field k v (remove gone rest)) ≡ lookup key (field k v rest)
    field_same b e same =
        lookup_field key k v (remove gone rest) b e
        ∙ ap (λ o. if b then some v else o) same
        ∙ sym (lookup_field key k v rest b e)

pub lookup-drop_if :
    (b : Bool) (key gone : String) (d : Fields)
    → str_eq gone key ≡ false
    → lookup key (drop_if b gone d) ≡ lookup key d
lookup-drop_if true key gone d other = lookup-remove key gone d other
lookup-drop_if false key gone d other = refl

-- A key is found as before, unless it is the one that is taken out.
pub drop_if_agrees :
    (b : Bool) (key gone : String) (d : Fields)
    → (lookup key (drop_if b gone d) ≡ lookup key d) ⊎ ((gone ≡ key) × (b ≡ true))
drop_if_agrees false key gone d = inl refl
drop_if_agrees true key gone d = elim (Bool-cases (str_eq gone key)) [
  | inl e ↦ inr (str_eq→eq gone key e, refl)
  | inr other ↦ inl (lookup-remove key gone d other)
]

-- A key that has the value already is set to no effect.
pub insert_same :
    (key : String) (v : Value) (d : Fields) → lookup key d ≡ some v → insert key v d ≡ d
unfolding lookup insert
insert_same key v end found = cc
insert_same key v (field k w rest) found = go (str_eq k key) refl (insert_same key v rest)
  where
    go :
        (b : Bool)
        → str_eq k key ≡ b
        → (lookup key rest ≡ some v → insert key v rest ≡ rest)
        → insert key v (field k w rest) ≡ field k w rest
    go true e same_rest =
        let same : some w ≡ some v = sym (lookup_field key k w rest true e) ∙ found in
        let value : v ≡ w = cc in rw e (ap (λ x. field k x rest) value)
    go false e same_rest =
        let later : lookup key rest ≡ some v = sym (lookup_field key k w rest false e) ∙ found in
        rw e (ap (λ d. field k w d) (same_rest later))
