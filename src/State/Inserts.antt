-- ===== src/State/Inserts.antt =====
-- A new compaction, with its inputs and its upload queue, keeps the database consistent.
use gtfs_rt_archiver.Base.{
  ℕ, suc, ◌≤◌, ◌≡◌, subst, Bool, true, false, All, any, arith, List, [], ◌∷◌, inl, inr, All-mono,
  All-append, All-any-false, ok, String, >>=-eq-ok, ◌>>=◌, some, Option-cases, find_row, str_eq,
  Bool-cases,
}
use gtfs_rt_archiver.Clock.{Time}
use gtfs_rt_archiver.Model.{Capture, Compaction, Upload, InputCapture}
use gtfs_rt_archiver.State.Tables.{Store, is_some}
use gtfs_rt_archiver.State.Uploads.{gates}
use gtfs_rt_archiver.State.Compactions.{
  insert_compaction, insert_input, insert_upload, insert_inputs, insert_uploads, save_compaction,
  with_compaction, with_upload, new_upload, adopt_inputs, adopt_compaction,
}
use gtfs_rt_archiver.State.History.{NoneRequired}
use gtfs_rt_archiver.State.Invariant.{IsConsistent}
use gtfs_rt_archiver.State.Marks.{append-IsGated}

-- A transaction that opens the compaction `id`: its uploads are still to come, and they must be
-- optional if it is published.
record IsOpening (id : ℕ) (published : Bool) (s : Store) : Type 0 where
  consistent : IsConsistent s
  bound : id ≤ s.compaction_seq
  own : All (λ c. c.id ≡ id → is_some c.published_at ≡ true → published ≡ true) s.compactions

-- The parts of the store that the gate is about.
abbrev pub SameGate : Store → Store → Type 0
SameGate s t =
    (t.compactions ≡ s.compactions)
    × (t.uploads ≡ s.uploads)
    × (t.compaction_seq ≡ s.compaction_seq)
    × (t.upload_seq ≡ s.upload_seq)

module _ (id : ℕ) (published : Bool) (s t : Store) where
  SameGate-IsOpening : SameGate s t → IsOpening id published s → IsOpening id published t
  SameGate-IsOpening (c, u, n, m) o = record {
    consistent = record {
      compaction_ids = rw (c, n) o.consistent.compaction_ids;
      upload_owners = rw (u, n) o.consistent.upload_owners;
      gated = rw (c, u) o.consistent.gated;
    };
    bound = rw n o.bound;
    own = rw c o.own;
  }

insert_input-SameGate :
    (s t : Store) (id : ℕ) (capture_id : String)
    → insert_input s id capture_id ≡ ok t
    → SameGate s t
unfolding insert_input
insert_input-SameGate s t id capture_id e = ground arith

pub insert_inputs-SameGate :
    (s t : Store) (id : ℕ) (cs : List Capture) → insert_inputs s id cs ≡ ok t → SameGate s t
unfolding insert_inputs
insert_inputs-SameGate s t id [] e = ground arith
insert_inputs-SameGate s t id (c ∷ cs) e =
    let (s', first, rest) = >>=-eq-ok (insert_input s id c.id) _ e in
    ground (arith, insert_input-SameGate s s' id c.id first, insert_inputs-SameGate s' t id cs rest)

pub adopt_inputs-SameGate :
    (s t : Store) (id : ℕ) (excluded : List String) (is : List InputCapture)
    → adopt_inputs s id excluded is ≡ ok t
    → SameGate s t
unfolding adopt_inputs
adopt_inputs-SameGate s t id excluded [] e = ground arith
adopt_inputs-SameGate s t id excluded (i ∷ is) e =
    elim (Option-cases (find_row (λ c. str_eq c.id i.id) s.captures)) [
      | inl gone ↦ ground (arith, adopt_inputs-SameGate s t id excluded is)
      | inr (c, found) ↦
          let (s', first, rest) = >>=-eq-ok (insert_input s id i.id) _ (linked c found) in
          ground (
            arith,
            insert_input-SameGate s s' id i.id first,
            adopt_inputs-SameGate s' t id excluded is rest,
          )
    ]
  where
    linked :
        (c : Capture)
        → find_row (λ c. str_eq c.id i.id) s.captures ≡ some c
        → (insert_input s id i.id >>= λ s'. adopt_inputs s' id excluded is) ≡ ok t
    linked c found = ground arith

older-gate : (n : ℕ) (u : Upload) → u.compaction_id ≤ n → gates (suc n) u ≡ false
unfolding gates
older-gate n u h = ground arith

-- No upload belongs to a compaction that is still to come.
older-gates :
    (n : ℕ) (uploads : List Upload)
    → All (λ u. u.compaction_id ≤ n) uploads
    → any (gates (suc n)) uploads ≡ false
older-gates n uploads h =
    All-any-false (gates (suc n)) uploads (All-mono _ _ (λ u k. older-gate n u k) uploads h)

with_compaction-IsOpening :
    (s : Store) (c : Compaction)
    → IsConsistent s
    → IsOpening (suc s.compaction_seq) (is_some c.published_at) (with_compaction s c)
unfolding with_compaction
with_compaction-IsOpening s c v = record {
  consistent = record {
    compaction_ids =
        All-append _ s.compactions _
          (All-mono _ _ (λ x h. omega arith) s.compactions v.compaction_ids) (omega arith, tt);
    upload_owners = All-mono _ _ (λ u h. omega arith) s.uploads v.upload_owners;
    gated =
        All-append _ s.compactions _ v.gated
          (λ _. older-gates s.compaction_seq s.uploads v.upload_owners, tt);
  };
  bound = omega arith;
  own =
      All-append _ s.compactions _
        (All-mono _ _ (λ x h e. absurd (omega arith)) s.compactions v.compaction_ids)
        (λ _ p. p, tt);
}

insert_compaction-ok :
    (s t : Store) (c : Compaction) → insert_compaction s c ≡ ok t → t ≡ with_compaction s c
unfolding insert_compaction
insert_compaction-ok s t c e = ground arith

new_upload-gates :
    (k id u : ℕ) (now : Time) (d : String) (required : Bool)
    → gates k (new_upload u id now d required) ≡ true
    → (k ≡ id) × (required ≡ true)
unfolding gates new_upload
new_upload-gates k id u now d required g = ground arith

with_upload-IsOpening :
    (id : ℕ) (published : Bool) (s : Store) (now : Time) (d : String) (required : Bool)
    → (published ≡ true → required ≡ false)
    → IsOpening id published s
    → IsOpening id published (with_upload s (new_upload (suc s.upload_seq) id now d required))
unfolding with_upload
with_upload-IsOpening id published s now d required k o = record {
  consistent = record {
    compaction_ids = o.consistent.compaction_ids;
    upload_owners =
        All-append _ s.uploads _ o.consistent.upload_owners (unfold new_upload in o.bound, tt);
    gated =
        append-IsGated s.uploads _ s.compactions
          (All-mono _ _ (λ c h p. All-any-false (gates c.id) _ (closed c h p, tt)) s.compactions
            o.own)
          o.consistent.gated;
  };
  bound = o.bound;
  own = o.own;
}
  where
    closed :
        (c : Compaction)
        → (c.id ≡ id → is_some c.published_at ≡ true → published ≡ true)
        → is_some c.published_at ≡ true
        → gates c.id (new_upload (suc s.upload_seq) id now d required) ≡ false
    closed c h p =
        elim (Bool-cases (gates c.id (new_upload (suc s.upload_seq) id now d required))) [
          | inr e ↦ e
          | inl e ↦
              let (same, must) = new_upload-gates c.id id (suc s.upload_seq) now d required e in
              ground (arith, h same p, k)
        ]

insert_uploads-IsOpening :
    (id : ℕ) (published : Bool) (s t : Store) (now : Time) (ds : List (String × Bool))
    → (published ≡ true → All (λ d. d.1 ≡ false) ds)
    → IsOpening id published s
    → insert_uploads s id now ds ≡ ok t
    → IsOpening id published t
unfolding insert_uploads insert_upload
insert_uploads-IsOpening id published s t now [] k o e =
    subst (IsOpening id published) (ground arith) o
insert_uploads-IsOpening id published s t now ((d, required) ∷ ds) k o e =
    insert_uploads-IsOpening id published
      (with_upload s (new_upload (suc s.upload_seq) id now d required)) t now ds (λ p. (k p).1)
      (with_upload-IsOpening id published s now d required (λ p. (k p).0) o) (ground arith)

-- What both transactions do after the new row: inputs that leave the gate alone, then the queue.
queue-IsConsistent :
    (s s₂ t : Store) (c : Compaction) (ds : List (String × Bool)) (now : Time)
    → NoneRequired c ds
    → IsConsistent s
    → SameGate (with_compaction s c) s₂
    → insert_uploads s₂ (with_compaction s c).compaction_seq now ds ≡ ok t
    → IsConsistent t
unfolding with_compaction
queue-IsConsistent s s₂ t c ds now k v same e =
    (insert_uploads-IsOpening (suc s.compaction_seq) (is_some c.published_at) s₂ t now ds k
      (SameGate-IsOpening (suc s.compaction_seq) (is_some c.published_at) (with_compaction s c) s₂
        same (with_compaction-IsOpening s c v))
      e).consistent

pub save_compaction-IsConsistent :
    (s t : Store) (c : Compaction) (inputs : List Capture) (ds : List (String × Bool)) (now : Time)
    → NoneRequired c ds
    → IsConsistent s
    → save_compaction s c inputs ds now ≡ ok t
    → IsConsistent t
unfolding save_compaction
save_compaction-IsConsistent s t c inputs ds now k v e =
    let (s₁, opened, e₁) = >>=-eq-ok (insert_compaction s c) _ e in
    let (s₂, linked, queued) = >>=-eq-ok (insert_inputs s₁ s₁.compaction_seq inputs) _ e₁ in
    let is_new = insert_compaction-ok s s₁ c opened in
    queue-IsConsistent s s₂ t c ds now k v
      (rw (← is_new) (insert_inputs-SameGate s₁ s₂ s₁.compaction_seq inputs linked))
      (rw (← is_new) queued)

pub adopt_compaction-IsConsistent :
    (s t : Store) (c : Compaction) (inputs : List InputCapture) (excluded : List String)
    (ds : List (String × Bool)) (now : Time)
    → NoneRequired c ds
    → IsConsistent s
    → adopt_compaction s c inputs excluded ds now ≡ ok t
    → IsConsistent t
unfolding adopt_compaction
adopt_compaction-IsConsistent s t c inputs excluded ds now k v e =
    let (s₁, opened, e₁) = >>=-eq-ok (insert_compaction s c) _ e in
    let (s₂, linked, queued) = >>=-eq-ok (adopt_inputs s₁ s₁.compaction_seq excluded inputs) _ e₁ in
    let is_new = insert_compaction-ok s s₁ c opened in
    queue-IsConsistent s s₂ t c ds now k v
      (rw (← is_new) (adopt_inputs-SameGate s₁ s₂ s₁.compaction_seq excluded inputs linked))
      (rw (← is_new) queued)
