-- ===== src/Image/Names/RoundTrip.antt =====
-- Acorn names that are shown and read back.
use nautilus_acornfs.Prelude.{
  ℕ, ◌≡◌, Bool, true, false, Option, some, [], ◌∷◌, map, any, ltb, leb, ◌==◌, length, refl, arith,
}
use nautilus_acornfs.Prelude.Text.{Text, Bytes}
use nautilus_acornfs.Prelude.Result.{ok, Error, raise_if, ◌>>◌}
use nautilus_acornfs.Image.Names.{
  display_char, acorn_char, without_dots, is_forbidden, is_empty, maximum_length, display_name,
  new_name,
}

-- A name that a format with a maximum length allows.
pub record IsName (maximum : ℕ) (s : Text) : Type 0 where
  pub ascii : any (λ c. leb 128 c) s ≡ false
  pub nonempty : is_empty s ≡ false
  pub short : ltb maximum (length s) ≡ false
  pub allowed : any is_forbidden s ≡ false

acorn_char-display_char : (c : ℕ) → leb 128 c ≡ false → acorn_char (display_char c) ≡ c
acorn_char-display_char c h = ground arith

map-display_char :
    (s : Text) → any (λ c. leb 128 c) s ≡ false → map acorn_char (map display_char s) ≡ s
map-display_char [] h = refl
map-display_char (c ∷ s) h = ground (arith, acorn_char-display_char c, map-display_char s)

display_char-dot : (c : ℕ) → is_forbidden c ≡ false → (display_char c == b'.') ≡ false
display_char-dot c h = ground arith

without_dots-eq :
    (s : Text) → any is_forbidden s ≡ false → without_dots (map display_char s) ≡ map display_char s
without_dots-eq [] h = refl
without_dots-eq (c ∷ s) h = rw (display_char-dot c (ground arith)) refl

guards :
    (t u v w : Bool) (e f : Error) (s s' : Text)
    → (raise_if t e >> (raise_if u e >> (raise_if v f >> (raise_if w e >> ok s)))) ≡ ok s'
    → (t ≡ false) × (u ≡ false) × (v ≡ false) × (w ≡ false) × (s ≡ s')
guards true u v w e f g g' h = cc
guards false true v w e f g g' h = cc
guards false false true w e f g g' h = cc
guards false false false true e f g g' h = cc
guards false false false false e f g g' h = (refl, refl, refl, refl, cc)

module _ (encode : Text → Bytes) (decode : Bytes → Option Text)
    (filesystem directory_format : Text) where
  -- With a codec that decodes what it encodes, an Acorn name that the format allows, also one with slashes
  -- and control characters, is read back from the name that is shown for it.
  pub new_name-display_name :
      (s : Text)
      → ((t : Text) → decode (encode t) ≡ some t)
      → IsName (maximum_length filesystem directory_format) s
      → new_name encode decode filesystem directory_format (display_name encode decode s) ≡ ok s
  unfolding new_name display_name
  new_name-display_name s codec h =
      rw
        (
          codec,
          without_dots-eq s h.allowed,
          map-display_char s h.ascii,
          h.ascii,
          h.nonempty,
          h.short,
          h.allowed,
        )
        refl
