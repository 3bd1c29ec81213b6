-- ===== src/Availability/Response/Laws.antt =====
-- What the verdict on a response depends on (paxalia/uptime.py).
use paxalia_dashboard.Prelude.{
  ◌≤◌, ◌++◌, sym, take, All, all→All, All→all, length, Bool-cases, ℕ, ◌≡◌, ◌↔◌, ◌⊎◌, inl, inr, refl,
  ap, ◌∙◌, Bool, true, ◌&&◌, not, some, List, [], ◌∷◌, Text, text_eq, text_eq→eq, text_eq_refl,
  is_empty, ◌==◌, if◌then◌else◌, arith,
}
use paxalia_dashboard.Availability.Record.{up, down}
use paxalia_dashboard.Availability.Response.{
  Json, Assertion, Assertions, unset, not_a_list, entries, entry_passes, starts_with, contains_text,
  Python, assertion_passes, check_assertions, response_media_type, evaluate_response,
}

verdict :
    (e t : Text) (a : Bool) (code wanted : ℕ)
    → ((if not (is_empty e) && not (text_eq t e)
          then down
          else if not a
          then down
          else if code == wanted
          then up
          else down)
        ≡ up)
      ↔ ((code ≡ wanted) × (a ≡ true) × ((e ≡ []) ⊎ (t ≡ e)))
verdict [] t a code wanted = (λ h. (ground arith, ground arith, inl refl), λ h. ground (arith, h))
verdict (c ∷ e) t a code wanted = (
  λ h. (ground arith, ground arith, inr (text_eq→eq t (c ∷ e) (ground arith))),
  λ h. elim h.2 [
    | inl empty ↦ absurd (ground (arith, empty))
    | inr same ↦
        let equal : text_eq t (c ∷ e) ≡ true =
          ap (λ x. text_eq x (c ∷ e)) same ∙ text_eq_refl (c ∷ e) in
        ground (arith, h.0, h.1, equal)
  ],
)

-- The needle stands somewhere in the text.
abbrev pub OccursIn : Text → Text → Type 0
OccursIn needle body = (before : Text) × (after : Text) × (body ≡ before ++ (needle ++ after))

starts_with-append : (needle after : Text) → starts_with needle (needle ++ after) ≡ true
unfolding starts_with
starts_with-append [] after = refl
starts_with-append (c ∷ needle) after = ground (arith, starts_with-append needle after)

starts_with-rest :
    (needle s : Text) → starts_with needle s ≡ true → (after : Text) × (s ≡ needle ++ after)
unfolding starts_with
starts_with-rest [] s h = (s, refl)
starts_with-rest (p ∷ ps) [] h = absurd (ground arith)
starts_with-rest (p ∷ ps) (c ∷ s) h =
    let (after, e) = starts_with-rest ps s (ground arith) in
    let same : p ≡ c = ground arith in
    (after, ap (λ x. c ∷ x) e ∙ ap (λ x. x ∷ (ps ++ after)) (sym same))

contains_text-OccursIn : (needle s : Text) → contains_text needle s ≡ true → OccursIn needle s
unfolding contains_text
contains_text-OccursIn [] [] h = ([], [], refl)
contains_text-OccursIn (p ∷ ps) [] h = absurd (ground arith)
contains_text-OccursIn needle (c ∷ s) h = elim (Bool-cases (starts_with needle (c ∷ s))) [
  | inl here ↦ let (after, e) = starts_with-rest needle (c ∷ s) here in ([], after, e)
  | inr later ↦
      let (before, after, e) = contains_text-OccursIn needle s (ground arith) in
      (c ∷ before, after, ap (λ x. c ∷ x) e)
]

contains_text-append :
    (before needle after : Text) → contains_text needle (before ++ (needle ++ after)) ≡ true
unfolding contains_text
contains_text-append [] [] [] = refl
contains_text-append [] [] (c ∷ after) = unfold starts_with in refl
contains_text-append [] (p ∷ ps) after = ground (arith, starts_with-append (p ∷ ps) after)
contains_text-append (c ∷ before) needle after =
    ground (arith, contains_text-append before needle after)

contains_text_iff : (needle s : Text) → (contains_text needle s ≡ true) ↔ OccursIn needle s
contains_text_iff needle s = (
  contains_text-OccursIn needle s,
  λ h. ap (contains_text needle) h.2 ∙ contains_text-append h.0 needle h.1,
)

-- No assertions are configured, or a list of at most 20, each of which passes.
unfoldable pub AreMet : Python → Assertions → Text → List (Text × Text) → Type 0
AreMet py unset body headers = Unit
AreMet py not_a_list body headers = ⊥
AreMet py (entries es) body headers =
    (length es ≤ 20) × All (λ e. entry_passes py body headers e ≡ true) es

check_assertions_iff :
    (py : Python) (assertions : Assertions) (body : Text) (headers : List (Text × Text))
    → (check_assertions py assertions body headers ≡ true) ↔ AreMet py assertions body headers
unfolding check_assertions AreMet
check_assertions_iff py unset body headers = (λ h. tt, λ h. refl)
check_assertions_iff py not_a_list body headers = (λ h. absurd (ground arith), λ h. absurd h)
check_assertions_iff py (entries es) body headers = (
  λ h. (ground arith, all→All (entry_passes py body headers) es (ground arith)),
  λ h. ground (arith, h.0, All→all (entry_passes py body headers) es h.1),
)

-- A response is up exactly if the status code is the expected one, the media type is the expected one
-- where one is configured, and no assertions are configured or there is a list of at most 20, each
-- of which passes.
pub evaluate_response-up :
    (py : Python) (expected : Text) (assertions : Assertions) (wanted code : ℕ)
    (content_type : Text) (headers : List (Text × Text)) (body : Text)
    → (evaluate_response py expected assertions wanted code content_type headers body ≡ up) ↔ (
        (code ≡ wanted)
        × AreMet py assertions body headers
        × ((response_media_type py expected ≡ [])
            ⊎ (response_media_type py content_type ≡ response_media_type py expected)))
unfolding evaluate_response
evaluate_response-up py expected assertions wanted code content_type headers body =
    let met = check_assertions_iff py assertions body headers in
    let decided =
      verdict (response_media_type py expected) (response_media_type py content_type)
        (check_assertions py assertions body headers) code wanted in
    (
      λ h. let facts = decided.0 h in (facts.0, met.0 facts.1, facts.2),
      λ h. decided.1 (h.0, met.1 h.1, h.2),
    )

-- An assertion that has a `contains` key passes exactly if the first 5000 characters of its needle
-- occur somewhere in the whole body, whatever its `json_path`, `header` and other keys say.
pub assertion_passes-contains :
    (py : Python) (a : Assertion) (needle : Json) (body : Text) (headers : List (Text × Text))
    → a.contains ≡ some needle
    → (assertion_passes py a body headers ≡ true) ↔ OccursIn (take 5000 (py.str needle)) body
unfolding assertion_passes
assertion_passes-contains py a needle body headers h =
    rw h (contains_text_iff (take 5000 (py.str needle)) body)
