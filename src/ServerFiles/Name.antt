-- ===== src/ServerFiles/Name.antt =====
-- `_validate_name` of paxalia/server_files/policy.py: the check of one file name.
use paxalia_dashboard.Prelude.{
  inl, inr, sym, ap, ◌∙◌, ℕ, ◌+◌, ◌≤◌, ◌≡◌, refl, ◌↔◌, Bool, false, ◌&&◌, ◌||◌, Option, none, some,
  [], ◌∷◌, arith, Text, codes, text_eq, is_empty, ends_with, last?, any, All, leb, ltb, ◌==◌,
  if◌then◌else◌, ok, err, ◌>>◌, raise_if, Option-cases, ◌≢◌,
}
use paxalia_dashboard.ServerFiles.Error.{Checked, invalid_path, unicode_error}

abbrev pub slash : ℕ
slash = b'/'

abbrev pub backslash : ℕ
backslash = 92

abbrev pub max_name_bytes : ℕ
max_name_bytes = 255

-- The bytes of one code point under `os.fsencode` (UTF-8 with `surrogateescape`); a surrogate that
-- escapes no byte cannot be encoded.
unfoldable pub encoded_size : ℕ → Option ℕ
encoded_size c =
    if ltb c 0x80
    then some 1
    else if ltb c 0x800
    then some 2
    else if leb 0xdc80 c && leb c 0xdcff
    then some 1
    else if leb 0xd800 c && leb c 0xdfff
    then none
    else if ltb c 0x10000
    then some 3
    else some 4

-- `len(os.fsencode(value))`
unfoldable pub encoded_length : Text → Option ℕ
unfolding encoded_size
encoded_length [] = some 0
encoded_length (c ∷ s) = elim (encoded_size c) [
  | none ↦ none
  | some n ↦ elim (encoded_length s) [ none ↦ none | some m ↦ some (n + m) ]
]

abbrev pub is_control : ℕ → Bool
is_control c = ltb c 32 || c == 127

-- `("/", "\\", "\x00", "%", ":")`
abbrev pub is_reserved : ℕ → Bool
is_reserved c = c == slash || c == backslash || c == 0 || c == b'%' || c == b':'

check_length : Option ℕ → Checked Unit
check_length none = err unicode_error
check_length (some n) = raise_if (ltb max_name_bytes n) invalid_path

unfoldable pub validate_name : Text → Checked Text
unfolding check_length
validate_name value = do
  raise_if (is_empty value || (text_eq value (codes ".") || text_eq value (codes "..")))
      invalid_path
  check_length (encoded_length value)
  raise_if (any is_reserved value) invalid_path
  raise_if (any is_control value) invalid_path
  raise_if (ends_with b'.' value || ends_with b' ' value) invalid_path
  ok value

-- A code point that may stand in a name.
abbrev pub IsPlain : ℕ → Type 0
IsPlain c = (32 ≤ c) × (c ≢ 127) × (c ≢ slash) × (c ≢ backslash) × (c ≢ b'%') × (c ≢ b':')

-- A name that the policy accepts, without reference to the code.
pub record IsSafeName (s : Text) : Type 0 where
  pub nonempty : is_empty s ≡ false
  pub size : ℕ
  pub encoded : encoded_length s ≡ some size
  pub fits : size ≤ max_name_bytes
  pub plain : All IsPlain s
  pub no_dot : last? s ≢ some b'.'
  pub no_space : last? s ≢ some b' '

any-IsPlain : (s : Text) → any is_reserved s ≡ false → any is_control s ≡ false → All IsPlain s
any-IsPlain [] h k = tt
any-IsPlain (c ∷ s) h k = (ground arith, any-IsPlain s (ground arith) (ground arith))

IsPlain-any : (s : Text) → All IsPlain s → (any is_reserved s ≡ false) × (any is_control s ≡ false)
IsPlain-any [] h = (refl, refl)
IsPlain-any (c ∷ s) (h, hs) = let (r, k) = IsPlain-any s hs in (ground arith, ground arith)

ends_with_last : (c : ℕ) (s : Text) → ends_with c s ≡ false → last? s ≢ some c
ends_with_last c s h = ground arith

last_ends_with : (c : ℕ) (s : Text) → last? s ≢ some c → ends_with c s ≡ false
last_ends_with c s h = ground arith

pub not_dots :
    (s : Text)
    → last? s ≢ some b'.'
    → (text_eq s (codes ".") ≡ false) × (text_eq s (codes "..") ≡ false)
not_dots [] h = (refl, refl)
not_dots (a ∷ []) h = (ground arith, ground arith)
not_dots (a ∷ b ∷ []) h = (ground arith, ground arith)
not_dots (a ∷ b ∷ c ∷ s) h = (ground arith, ground arith)

validate_name-IsSafeName : (s : Text) {t : Text} → validate_name s ≡ ok t → (t ≡ s) × IsSafeName s
unfolding validate_name
validate_name-IsSafeName s h = elim (Option-cases (encoded_length s)) [
  | inl unencodable ↦ absurd (ground arith)
  | inr (n, e) ↦ (
    ground arith,
    record {
      nonempty = ground arith;
      size = n;
      encoded = e;
      fits = ground arith;
      plain = any-IsPlain s (ground arith) (ground arith);
      no_dot = ends_with_last b'.' s (ground arith);
      no_space = ends_with_last b' ' s (ground arith);
    },
  )
]

pub IsSafeName-validate_name : (s : Text) → IsSafeName s → validate_name s ≡ ok s
unfolding validate_name
IsSafeName-validate_name s h = ground (
  arith,
  h.encoded,
  (IsPlain-any s h.plain).0,
  (IsPlain-any s h.plain).1,
  last_ends_with b'.' s h.no_dot,
  last_ends_with b' ' s h.no_space,
  not_dots s h.no_dot,
)

-- `validate_name` accepts exactly the safe names (not empty, at most 255 encoded bytes, no control
-- or reserved character, no dot or space at the end), and hands them back unchanged.
pub validate_name_iff : (s t : Text) → (validate_name s ≡ ok t) ↔ ((t ≡ s) × IsSafeName s)
validate_name_iff s t =
    (validate_name-IsSafeName s, λ h. IsSafeName-validate_name s h.1 ∙ ap ok (sym h.0))
