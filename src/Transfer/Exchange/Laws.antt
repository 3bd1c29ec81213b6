-- ===== src/Transfer/Exchange/Laws.antt =====
-- What a resolved transfer path guarantees (paxalia/transfer_center/service.py and policy.py).
use paxalia_dashboard.Prelude.{
  ◌+◌, ◌≡◌, refl, sym, ap, ◌∙◌, Bool, true, false, ◌||◌, not, some, List, [], ◌∷◌, ◌++◌, Text,
  text_eq, text_eq→eq, length, ◌==◌, Result, ok, raise_if, >>=-eq-ok, ok_injective, arith,
}
use mathlib.Core.Path.{ap₂}
use paxalia_dashboard.ServerFiles.Path.{split_relative_path}
use paxalia_dashboard.ServerFiles.Roots.{get_root}
use paxalia_dashboard.ServerFiles.Access.{Root}
use paxalia_dashboard.Transfer.Model.{Transfer, Account, TransferError, permission_denied}
use paxalia_dashboard.Transfer.Exchange.{
  Deployment, lift, parts_eq, parent_parts, last_part, hide_policy_error, hide_path_error,
  safe_filename, allow, resolve_transfer_exchange, stored_path, resolve_bound_transfer_path,
}

parts_eq→eq : (a b : List Text) → parts_eq a b ≡ true → a ≡ b
unfolding parts_eq
parts_eq→eq [] [] h = refl
parts_eq→eq [] (q ∷ qs) h = cc
parts_eq→eq (p ∷ ps) [] h = cc
parts_eq→eq (p ∷ ps) (q ∷ qs) h = ground (arith, text_eq→eq p q, parts_eq→eq ps qs)

parent-last :
    (p : Text) (ps : List Text) → parent_parts (p ∷ ps) ++ last_part (p ∷ ps) ∷ [] ≡ p ∷ ps
unfolding parent_parts last_part
parent-last p [] = refl
parent-last p (q ∷ ps) = ap (λ t. p ∷ t) (parent-last q ps)

rejoined :
    (parts folder : List Text) (name : Text)
    → (length parts == length folder + 1) ≡ true
    → parts_eq (parent_parts parts) folder ≡ true
    → text_eq (last_part parts) name ≡ true
    → parts ≡ folder ++ name ∷ []
rejoined [] folder name h k e = absurd (ground arith)
rejoined (p ∷ ps) folder name h k e =
    sym (parent-last p ps)
    ∙ ap (λ t. t ++ last_part (p ∷ ps) ∷ []) (parts_eq→eq _ folder k)
    ∙ ap (λ t. folder ++ t ∷ []) (text_eq→eq _ name e)

hide_policy_error-ok :
    (r : Result TransferError (Root × List Text)) (a : Root × List Text)
    → hide_policy_error r ≡ ok a
    → r ≡ ok a
unfolding hide_policy_error
hide_policy_error-ok r a h = ground arith

hide_path_error-ok :
    (r : Result TransferError (Root × List Text × Text)) (a : Root × List Text × Text)
    → hide_path_error r ≡ ok a
    → r ≡ ok a
unfolding hide_path_error
hide_path_error-ok r a h = ground arith

-- A resolved path of a row is the one file of the exchange directory that carries the row's name.
pub record IsBound (d : Deployment) (t : Transfer) (account : Account) (write : Bool) (root : Root)
    (parts : List Text) : Type 0 where
  pub folder : List Text
  pub name : Text
  pub exchange : resolve_transfer_exchange d account write ≡ ok (root, folder)
  pub named : safe_filename d t.filename ≡ ok name
  pub inside : parts ≡ folder ++ name ∷ []
  pub allowed : (sensitive : Bool) × (allow d root parts account write ≡ ok sensitive)

stored_path-name :
    (d : Deployment) (t : Transfer) (s : Root × List Text × Text)
    → stored_path d t ≡ ok s
    → safe_filename d t.filename ≡ ok s.2
unfolding stored_path
stored_path-name d t s h =
    let (roots, _, h1) = >>=-eq-ok (lift d.roots) _ h in
    let (root, _, h2) = >>=-eq-ok (lift (get_root t.server_root_id roots)) _ h1 in
    let (parts, _, h3) =
      >>=-eq-ok (lift (split_relative_path (some t.server_relative_path) false)) _ h2 in
    let (name, e, h4) = >>=-eq-ok (safe_filename d t.filename) _ h3 in
    e ∙ ap (λ (x : Root × List Text × Text). ok x.2) (ok_injective h4)

raise_if-ok : (b : Bool) (e : TransferError) (u : Unit {0}) → raise_if (not b) e ≡ ok u → b ≡ true
raise_if-ok b e u h = ground arith

raise_if_or-ok :
    (a b : Bool) (e : TransferError) (u : Unit {0})
    → raise_if (not a || not b) e ≡ ok u
    → (a ≡ true) × (b ≡ true)
raise_if_or-ok a b e u h = ground arith

-- Whatever path an old row stores, `_resolve_bound_transfer_path` resolves it only to the file of the
-- row's own (safe) name directly in the current exchange directory, and only if the Server Files
-- policy allows that file to this user.
pub resolve_bound_transfer_path-IsBound :
    (d : Deployment) (t : Transfer) (account : Account) (write : Bool) (root : Root)
    (parts : List Text)
    → resolve_bound_transfer_path d t account write ≡ ok (root, parts)
    → IsBound d t account write root parts
unfolding resolve_bound_transfer_path
resolve_bound_transfer_path-IsBound d t account write root parts h =
    let (found, e1, h1) =
      >>=-eq-ok (hide_policy_error (resolve_transfer_exchange d account write)) _ h in
    let (stored, e2, h2) = >>=-eq-ok (hide_path_error (stored_path d t)) _ h1 in
    let (_, _, h3) =
      >>=-eq-ok (raise_if (not (text_eq stored.0.id found.0.id)) permission_denied) _ h2 in
    let (u4, e4, h4) =
      >>=-eq-ok (raise_if (not (length stored.1 == length found.1 + 1)) permission_denied) _ h3 in
    let (u5, e5, h5) =
      >>=-eq-ok
        (raise_if
          (not (parts_eq (parent_parts stored.1) found.1)
            || not (text_eq (last_part stored.1) stored.2))
          permission_denied)
        _ h4 in
    let (sensitive, e6, h6) = >>=-eq-ok (allow d found.0 stored.1 account write) _ h5 in
    let same : (found.0, stored.1) ≡ (root, parts) = ok_injective h6 in
    let (k1, k2) = raise_if_or-ok _ _ permission_denied u5 e5 in
    let same_root : found.0 ≡ root = ap (λ (x : Root × List Text). x.0) same in
    let same_parts : stored.1 ≡ parts = ap (λ (x : Root × List Text). x.1) same in
    record {
      folder = found.1;
      name = stored.2;
      exchange = hide_policy_error-ok _ found e1 ∙ ap (λ (r : Root). ok (r, found.1)) same_root;
      named = stored_path-name d t stored (hide_path_error-ok _ stored e2);
      inside =
          sym same_parts
          ∙ rejoined stored.1 found.1 stored.2 (raise_if-ok _ permission_denied u4 e4) k1 k2;
      allowed = (
        sensitive,
        ap₂ (λ r ps. allow d r ps account write) (sym same_root) (sym same_parts) ∙ e6,
      );
    }
