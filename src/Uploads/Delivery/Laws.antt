-- ===== src/Uploads/Delivery/Laws.antt =====
-- A client that sends every chunk in order completes the upload (paxalia/views/uploads.py).
use paxalia_dashboard.Prelude.{
  ℕ, suc, ◌≡◌, ◌∙◌, refl, sym, ap, subst, false, some, List, [], ◌∷◌, ◌++◌, length, ok, arith,
}
use mathlib.Core.List.{append-nil, append_assoc}
use paxalia_dashboard.Transfer.Model.{Upload, Account}
use paxalia_dashboard.Transfer.Service.{find_upload}
use paxalia_dashboard.Uploads.Session.{Store, Temp, missing, file, link, done}
use paxalia_dashboard.Uploads.Chunk.{expected_size, lock_upload, content_of, advanced, upload_chunk}
use paxalia_dashboard.Uploads.Chunk.Received.{IsReceiving}
use paxalia_dashboard.Uploads.Chunk.Steps.{find_upload-id}
use paxalia_dashboard.Uploads.Complete.{
  Places, upload_complete, completed_upload, complete_locked, finish_upload, settle_move,
}
use paxalia_dashboard.Uploads.Delivery.{
  Part, no_faults, no_complete_faults, fresh, request, deliver, joined, IsCut, Sendable,
}
use paxalia_dashboard.Uploads.Delivery.Steps.{sent_next}

-- The session when every part was sent.
record Delivered (account : Account) (id : ℕ) (bytes : List ℕ) (store : Store) : Type 0 where
  row : Upload
  session : Sendable account id row store
  all_chunks : row.chunks_received ≡ row.total_chunks
  content : content_of (store.temp id) ≡ bytes

IsCut-advanced :
    (configured : ℕ) (u : Upload) (size k : ℕ) (parts : List Part)
    → IsCut configured u k parts
    → IsCut configured (advanced u size) k parts
unfolding expected_size
IsCut-advanced configured u size k [] cut = cut
IsCut-advanced configured u size k (part ∷ parts) (few, index, same, some_bytes, few_bytes, cut) =
    (few, index, same, some_bytes, few_bytes, IsCut-advanced configured u size (suc k) parts cut)

deliver-Delivered :
    (configured : ℕ) (account : Account) (id : ℕ) (u : Upload) (parts : List Part) (store : Store)
    → Sendable account id u store
    → IsCut configured u u.chunks_received parts
    → Delivered account id
        (content_of (store.temp id) ++ joined parts)
        (deliver configured account id parts store)
unfolding deliver
deliver-Delivered configured account id u [] store session cut = record {
  row = u;
  session = session;
  all_chunks = cut;
  content = sym (append-nil (content_of (store.temp id)));
}
deliver-Delivered configured account id u (part ∷ parts) store session
      (few, index, size, some_bytes, few_bytes, cut) =
    let next =
      (upload_chunk configured no_faults (fresh id store) (request account id part) store).1 in
    let (after, more) =
      sent_next configured account id u part store session few index size some_bytes few_bytes in
    let rest =
      deliver-Delivered configured account id (advanced u (length part.1)) parts next after
        (IsCut-advanced configured u (length part.1) (suc u.chunks_received) parts cut) in
    record {
      row = rest.row;
      session = rest.session;
      all_chunks = rest.all_chunks;
      content =
          rest.content
          ∙ ap (λ xs. xs ++ joined parts) more
          ∙ append_assoc (content_of (store.temp id)) part.1 (joined parts);
    }

held_file :
    (u : Upload) (t : Temp)
    → IsReceiving u t
    → u.chunks_received ≡ u.total_chunks
    → (t ≡ file (content_of t)) × (length (content_of t) ≡ u.total_size)
held_file u missing sound every = absurd (ground (arith, sound.stored, sound.counted, sound.shape))
held_file u (file c) sound every = (refl, ground (arith, sound.stored, sound.counted))
held_file u (link c) sound every = absurd (ground (arith, sound.regular))

completes_locked :
    (places : Places) (account : Account) (u : Upload) (store : Store)
    → Sendable account u.id u store
    → u.chunks_received ≡ u.total_chunks
    → ((complete_locked places no_complete_faults u store).0
        ≡ done false (completed_upload places u))
      × ((complete_locked places no_complete_faults u store).1.final u.id
          ≡ some (content_of (store.temp u.id)))
unfolding complete_locked finish_upload settle_move
completes_locked places account u store session every =
    let (held, size) = held_file u (store.temp u.id) session.sound every in
    ground (arith, session.unfinished)

completes :
    (places : Places) (account : Account) (id : ℕ) (u : Upload) (store : Store)
    → Sendable account id u store
    → u.chunks_received ≡ u.total_chunks
    → (let answer =
          upload_complete places no_complete_faults
            (find_upload (some id) store.db)
            account
            id
            store in
        (answer.0 ≡ done false (completed_upload places u))
        × (answer.1.final id ≡ some (content_of (store.temp id))))
unfolding upload_complete
completes places account id u store session every =
    let own = find_upload-id id store.db u session.found in
    let locks =
      subst (λ o. lock_upload account id o store.db ≡ ok u) (sym session.found) session.locks in
    rw locks (
      subst
        (λ i.
          ((complete_locked places no_complete_faults u store).0
            ≡ done false (completed_upload places u))
          × ((complete_locked places no_complete_faults u store).1.final i
              ≡ some (content_of (store.temp i))))
        own
        (completes_locked places account u store
          (subst (λ i. Sendable account i u store) (sym own) session) every))

-- A client that may send to a session, and that sends the chunks from the one that the row waits for
-- to the last one, each of its expected size and within the configured one, and then completes the
-- upload, is told that it has completed now, if nothing fails meanwhile; and the file at the final
-- place is what was received before followed by the chunks sent.
pub deliver-upload_complete :
    (configured : ℕ) (places : Places) (account : Account) (id : ℕ) (u : Upload) (parts : List Part)
    (store : Store)
    → Sendable account id u store
    → IsCut configured u u.chunks_received parts
    → (let last = deliver configured account id parts store in
        let answer =
          upload_complete places no_complete_faults
            (find_upload (some id) last.db)
            account
            id
            last in
        ((w : Upload) × (answer.0 ≡ done false w))
        × (answer.1.final id ≡ some (content_of (store.temp id) ++ joined parts)))
deliver-upload_complete configured places account id u parts store session cut =
    let last = deliver configured account id parts store in
    let d = deliver-Delivered configured account id u parts store session cut in
    let (told, final) = completes places account id d.row last d.session d.all_chunks in
    ((completed_upload places d.row, told), final ∙ ap some d.content)
