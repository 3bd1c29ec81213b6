-- ===== src/ServerFiles/Preview/Tests.antt =====
-- Runs of the redaction of a document, and its theorem applied at one.
use paxalia_dashboard.Prelude.{
  ◌∷◌, zero, suc, take, ℕ, ◌≡◌, refl, inl, inr, Bool, true, not, Text, codes, text_eq,
  if◌then◌else◌, pos, Bool-cases,
}
use paxalia_dashboard.Availability.Response.{
  Json, integer, string, array, object, no_items, item, no_members, member_of, set_member,
  contains_text,
}
use paxalia_dashboard.ServerFiles.Preview.{
  Redaction, redacted, redact_document, normalised_secret_key, redact_json_value, mark_truncated,
}
use paxalia_dashboard.ServerFiles.Preview.Laws.{IsClean, redact_document-IsClean}

abbrev bearer : Text
bearer = codes "Bearer x"

abbrev is_clean : Text → Bool
is_clean t = not (text_eq t bearer)

abbrev hide : Text → Text
hide t = if text_eq t bearer then redacted else t

abbrev redaction : Redaction
redaction = record { casefold = λ t. t; redact_text = hide }

hide-is_clean : (t : Text) → is_clean (hide t) ≡ true
hide-is_clean t = elim (Bool-cases (text_eq t bearer)) [
  | inl same ↦ rw same refl
  | inr other ↦ rw other (rw other refl)
]

-- A document with a secret key, one inside a list, and a text with a credential.
abbrev document : Json
document = object (
    member_of (codes "db_password") (object (member_of (codes "a") (integer (pos 1)) no_members)) (
      member_of (codes "list")
        (array (
          item (object (member_of (codes "api-key") (string (codes "k")) no_members))
            (item (string bearer) no_items)))
        (member_of (codes "name") (string (codes "n")) no_members)))

abbrev preview : Json
preview = object (
    member_of (codes "db_password") (string redacted) (
      member_of (codes "list")
        (array (
          item (object (member_of (codes "api-key") (string redacted) no_members))
            (item (string redacted) no_items)))
        (member_of (codes "name") (string (codes "n")) no_members)))

document_run : redact_document redaction document ≡ preview
unfolding redact_document redact_json_value normalised_secret_key contains_text set_member
    mark_truncated
document_run = refl

abbrev letters : ℕ → Text
letters zero = codes "password"
letters (suc n) = b'x' ∷ letters n

-- A key is cut before it is tested: a value is shown whose secret key is too long.
long_key_shown :
    (normalised_secret_key redaction (letters 200) ≡ true)
    × (redact_document redaction (object (member_of (letters 200) (integer (pos 1)) no_members))
        ≡ object (member_of (take 200 (letters 200)) (integer (pos 1)) no_members))
unfolding redact_document redact_json_value normalised_secret_key contains_text set_member
long_key_shown = (refl, refl)

redact_document-IsClean_example : IsClean redaction is_clean (redact_document redaction document)
redact_document-IsClean_example =
    redact_document-IsClean redaction is_clean hide-is_clean refl refl refl refl document
