-- ===== src/Transfer/Finalize/Promoted.antt =====
-- What a promotion that linked a file has seen (paxalia/transfer_center/service.py).
use paxalia_dashboard.Prelude.{
  ℕ, ◌≡◌, sym, subst, ap, ◌∙◌, ◌⊎◌, inl, inr, true, false, Option, none, some, List, Text,
  text_eq→eq, length, ◌==◌, ok, Result-cases, Bool-cases, arith,
}
use mathlib.Core.Path.{ap₂}
use paxalia_dashboard.ServerFiles.Access.{Root}
use paxalia_dashboard.Transfer.Model.{Transfer, Account, TransferError}
use paxalia_dashboard.Transfer.Exchange.{resolve_bound_transfer_path}
use paxalia_dashboard.Transfer.Service.{Service}
use paxalia_dashboard.Transfer.Finalize.{
  Host, Linked, Promotion, promoted, settle_raised, caught, copy_to_temp, promote,
}

-- What a promotion that linked a file has seen.
pub record IsLinked (s : Service) (h : Host) (t : Transfer) (account : Account) (linked : Linked)
    : Type 0 where
  pub bound :
      resolve_bound_transfer_path s.deployment t account true ≡ ok (linked.root, linked.parts)
  pub free : h.occupied ≡ false
  pub verified : s.sha256 linked.content ≡ t.source_checksum

abbrev pub linked_of : Promotion → Option Linked
linked_of (promoted digest l) = some l
linked_of (settle_raised missing l) = some l
linked_of _ = none

-- The digest of a completed promotion is the declared one.
abbrev pub Digested : Transfer → Promotion → Type 0
Digested t (promoted digest l) = digest ≡ t.source_checksum
Digested t _ = Unit

copy_to_temp-linked :
    (s : Service) (h : Host) (t : Transfer) (content : List ℕ) (root : Root) (parts : List Text)
    (l : Linked)
    → linked_of (copy_to_temp s h t content root parts) ≡ some l
    → (l.root ≡ root)
      × (l.parts ≡ parts)
      × (h.occupied ≡ false)
      × (s.sha256 l.content ≡ t.source_checksum)
unfolding copy_to_temp
copy_to_temp-linked s h t content root parts l e = ground (
  arith,
  text_eq→eq (s.sha256 content) t.source_checksum,
  text_eq→eq (s.sha256 h.reread) (s.sha256 content),
)

copy_to_temp-Digested :
    (s : Service) (h : Host) (t : Transfer) (content : List ℕ) (root : Root) (parts : List Text)
    → Digested t (copy_to_temp s h t content root parts)
unfolding copy_to_temp
copy_to_temp-Digested s h t content root parts = ground (
  arith,
  text_eq→eq (s.sha256 content) t.source_checksum,
  text_eq→eq (s.sha256 h.reread) (s.sha256 content),
)

-- A promotion either never reaches the temporary file, or is the copy of an opened staging file to
-- the bound path.
Reaches : Service → Host → Transfer → Account → Type 0
Reaches s h t account =
    (content : List ℕ) × (found : Root × List Text) × (resolve_bound_transfer_path s.deployment t
        account true
      ≡ ok found)
    × (promote s h t account ≡ copy_to_temp s h t content found.0 found.1)

caught-unlinked : (e : TransferError) → linked_of (caught e) ≡ none
caught-unlinked e = ground arith

promote-cases :
    (s : Service) (h : Host) (t : Transfer) (account : Account)
    → Reaches s h t account ⊎ (linked_of (promote s h t account) ≡ none)
unfolding promote Reaches
promote-cases s h t account = elim (Result-cases h.source) [
  | inr (missing, opened) ↦ inr (ground arith)
  | inl (content, opened) ↦ elim (Bool-cases (length content == t.size)) [
    | inr short ↦ inr (ground arith)
    | inl whole ↦ elim (Result-cases (resolve_bound_transfer_path s.deployment t account true)) [
      | inl (found, bound) ↦ inl (content, found, bound, ground arith)
      | inr (x, bound) ↦ inr (ground arith)
    ]
  ]
]

unlinked-Digested : (t : Transfer) (p : Promotion) → linked_of p ≡ none → Digested t p
unlinked-Digested t (promoted digest l) h = absurd (ground arith)
unlinked-Digested t (settle_raised m l) h = tt
unlinked-Digested t _ h = tt

pub promote-IsLinked :
    (s : Service) (h : Host) (t : Transfer) (account : Account) (l : Linked)
    → linked_of (promote s h t account) ≡ some l
    → IsLinked s h t account l
unfolding Reaches
promote-IsLinked s h t account l e = elim (promote-cases s h t account) [
  | inr unlinked ↦ absurd (ground arith)
  | inl (content, found, bound, copied) ↦
      let facts =
        copy_to_temp-linked s h t content found.0 found.1 l (ap linked_of (sym copied) ∙ e) in
      record {
        bound = bound ∙ ap₂ (λ r ps. ok (r, ps)) (sym facts.0) (sym facts.1);
        free = facts.2;
        verified = facts.3;
      }
]

pub promote-Digested :
    (s : Service) (h : Host) (t : Transfer) (account : Account) → Digested t (promote s h t account)
unfolding Reaches
promote-Digested s h t account = elim (promote-cases s h t account) [
  | inr unlinked ↦ unlinked-Digested t _ unlinked
  | inl (content, found, bound, copied) ↦
      subst (Digested t) (sym copied) (copy_to_temp-Digested s h t content found.0 found.1)
]
