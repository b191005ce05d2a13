-- ===== src/Image/Names.antt =====
-- src/acornfs/core/image.py: `_display_name` and `_new_name`, the names that Linux shows for Acorn names.
-- Python's UTF-8 codec is a parameter.
pub mod RoundTrip
use nautilus_acornfs.Prelude.{
  ℕ, ◌+◌, ◌-◌, Bool, true, false, not, ◌&&◌, ◌||◌, Option, none, some, List, [], ◌∷◌, map, any,
  if◌then◌else◌, ltb, leb, ◌==◌, length,
}
use nautilus_acornfs.Prelude.Text.{Text, Bytes, codes, text_eq}
use nautilus_acornfs.Prelude.Result.{
  Result, ok, err, value_error, filename_too_long, raise_if, ◌>>=◌, ◌>>◌,
}

-- `∕`, `␀`, `␡` and `．`
abbrev pub division_slash : ℕ
division_slash = 0x2215

abbrev pub symbol_for_null : ℕ
symbol_for_null = 0x2400

abbrev pub symbol_for_delete : ℕ
symbol_for_delete = 0x2421

abbrev pub fullwidth_full_stop : ℕ
fullwidth_full_stop = 0xFF0E

abbrev pub display_char : ℕ → ℕ
display_char c =
    if c == b'/'
    then division_slash
    else if ltb c 32
    then symbol_for_null + c
    else if c == 127
    then symbol_for_delete
    else c

abbrev pub without_dots : Text → Text
without_dots s =
    if text_eq s (codes ".")
    then fullwidth_full_stop ∷ []
    else if text_eq s (codes "..")
    then fullwidth_full_stop ∷ fullwidth_full_stop ∷ []
    else s

abbrev pub acorn_char : ℕ → ℕ
acorn_char c =
    if c == division_slash
    then b'/'
    else if leb 0x2400 c && leb c 0x241F
    then c - 0x2400
    else if c == symbol_for_delete
    then 127
    else c

-- Characters that no format allows in a name.
abbrev pub is_forbidden : ℕ → Bool
is_forbidden c = c == 0 || c == b'.' || c == b':' || c == 13

abbrev pub is_empty : Text → Bool
is_empty [] = true
is_empty (c ∷ s) = false

-- The longest name, by the filesystem and the format of its directories.
abbrev pub maximum_length : Text → Text → ℕ
maximum_length filesystem directory_format =
    if text_eq filesystem (codes "acorn-dfs") || text_eq filesystem (codes "watford-dfs")
    then 7
    else if text_eq directory_format (codes "BigDirectoryFormat")
    then 255
    else 10

module _ (encode : Text → Bytes) (decode : Bytes → Option Text) where
  -- `_display_name`
  unfoldable pub display_name : Text → Bytes
  display_name name = encode (without_dots (map display_char name))

  abbrev check_name : ℕ → Text → Result Text
  check_name maximum decoded = do
    raise_if (any (λ c. leb 128 c) decoded) value_error
    raise_if (is_empty decoded) value_error
    raise_if (ltb maximum (length decoded)) filename_too_long
    raise_if (any is_forbidden decoded) value_error
    ok decoded

  abbrev new_decoded : ℕ → Option Text → Result Text
  new_decoded maximum none = err value_error
  new_decoded maximum (some displayed) = check_name maximum (map acorn_char displayed)

  -- `_new_name`
  unfoldable pub new_name : Text → Text → Bytes → Result Text
  new_name filesystem directory_format name =
      new_decoded (maximum_length filesystem directory_format) (decode name)
