-- ===== src/Server/Delivery/Composed.antt =====
-- backend/internal/service/service.go: `MergeUpload` composes the parts that are there, and finds them whole.
use text.Mathlib.Text.{starts_with}
use mathlib.Core.Bool.{true≢false}
use mathlib.Core.Option.{some-injective}
use cloud_file.Base.{
  ℕ, ◌==◌, ◌≡◌, sym, subst, ◌∙◌, Bool, true, false, String, List, some, length, str_eq, eq_refl,
  arith,
}
use cloud_file.Server.Model.{UploadTask}
use cloud_file.Server.Action.{Failure, failure, Outcome, done, fails, Action}
use cloud_file.Server.Action.Rules.{
  Ends, Ensures-pure, Ensures-bind, Ensures-then, Ensures-attempt, Ensures-weaken,
}
use cloud_file.Server.Storage.{ObjectStore, IsLawful, IsReliable, IsDone, joined}
use cloud_file.Server.World.{Config, Tables, World, stored}
use cloud_file.Server.World.Quiet.{Returns}
use cloud_file.Server.World.Calm.{Locks, Calm}
use cloud_file.Server.World.Calm.Calls.{apart_objects, Calm-stored, no_objects}
use cloud_file.Server.Keys.{final_object_key}
use cloud_file.Server.Merge.{passed, or_failed, fail_unless, is_that, compose_parts}

module _ {S : ObjectStore} (c : Config) (sha256_hex : List ℕ → String) where
  -- a call that cannot fail does not fail the upload
  passed_done :
      {A : Type 0} {Q : A → World S → Type 0} (task : UploadTask) (r : Outcome A)
      → Returns (λ w. Ends Q (λ v. ⊥) (r, w)) (passed c sha256_hex task r) Q
  unfolding passed
  passed_done task (done a) = Ensures-pure a (λ w h. h)
  passed_done task (fails e) = record { from = λ w h. absurd h }

  pub or_failed_done :
      {A : Type 0} {P : World S → Type 0} {Q : A → World S → Type 0} (task : UploadTask)
      {m : Action (World S) A}
      → Returns P m Q
      → Returns P (or_failed c sha256_hex task m) Q
  unfolding or_failed
  or_failed_done task h = Ensures-bind (Ensures-attempt h) (passed_done task)

  pub fail_unless_true :
      {P : World S → Type 0} (task : UploadTask) (e : Failure) (b : Bool)
      → b ≡ true
      → Returns P (fail_unless c sha256_hex task e b) (λ a. P)
  unfolding fail_unless
  fail_unless_true task e true h = Ensures-pure tt (λ w p. p)
  fail_unless_true task e false h = absurd (true≢false (sym h))

  -- a test of what a call is known to answer
  tested :
      {A : Type 0} {P : World S → Type 0} (task : UploadTask) (e : Failure) (test : A → Bool)
      (a : A)
      → test a ≡ true
      → (r : Outcome A)
      → Returns
          (λ w. Ends (λ b v. P v × (b ≡ a)) (λ v. ⊥) (r, w))
          (fail_unless c sha256_hex task e (is_that test r))
          (λ x. P)
  tested task e test a h (done b) = record {
    from = λ w k.
        (fail_unless_true task e (test b) (subst (λ x. test x ≡ true) (sym k.1) h)).from w k.0;
  }
  tested task e test a h (fails f) = record { from = λ w k. absurd k }

module _ {S : ObjectStore} (law : IsLawful S) (k : String) (bytes : List ℕ) where
  composed_by :
      (keys : List String) (s : S.State)
      → joined (law.read s) keys ≡ some bytes
      → (x : Outcome (Unit {0}) × S.State) → IsDone x.0
      → Ends
          (λ _ t.
            ((b : List ℕ) × (joined (law.read s) keys ≡ some b) × (law.read t k ≡ some b))
            × ((j : String) → starts_with j k ≡ false → law.read t j ≡ law.read s j))
          (λ t. (j : String) → starts_with j k ≡ false → law.read t j ≡ law.read s j)
          x
      → Ends (λ _ t. law.read t k ≡ some bytes) (λ t. ⊥) x
  composed_by keys s e (done a, t) d l = l.0.2 ∙ sym l.0.1 ∙ e
  composed_by keys s e (fails f, t) d l = d

  measured_by :
      (s : S.State)
      → law.read s k ≡ some bytes
      → (x : Outcome ℕ × S.State) → IsDone x.0
      → Ends
          (λ n t.
            ((b : List ℕ) → law.read s k ≡ some b → n ≡ length b)
            × ((j : String) → law.read t j ≡ law.read s j))
          (λ t. (j : String) → law.read t j ≡ law.read s j)
          x
      → Ends (λ n t. (law.read t k ≡ some bytes) × (n ≡ length bytes)) (λ t. ⊥) x
  measured_by s e (done n, t) d l = (l.1 k ∙ e, l.0 bytes e)
  measured_by s e (fails f, t) d l = d

  fetched_by :
      (s : S.State)
      → law.read s k ≡ some bytes
      → (x : Outcome (List ℕ) × S.State) → IsDone x.0
      → Ends
          (λ b t. (law.read s k ≡ some b) × ((j : String) → law.read t j ≡ law.read s j))
          (λ t. (j : String) → law.read t j ≡ law.read s j)
          x
      → Ends (λ b t. (law.read t k ≡ some bytes) × (b ≡ bytes)) (λ t. ⊥) x
  fetched_by s e (done b, t) d l = (l.1 k ∙ e, some-injective b bytes (sym l.0 ∙ e))
  fetched_by s e (fails f, t) d l = d

module _ {S : ObjectStore} {T : Tables → Type 0} {L : Locks → Type 0} (law : IsLawful S)
    (reliable : IsReliable S law) (c : Config) (sha256_hex : List ℕ → String) (bytes : List ℕ) where
  composed :
      (k : String) (keys : List String)
      → Returns
          (Calm S T (λ s. joined (law.read s) keys ≡ some bytes) L)
          (stored {S = S} (S.compose_object k keys))
          (λ a. Calm S T (λ s. law.read s k ≡ some bytes) L)
  composed k keys =
      Ensures-weaken (λ w h. h) (λ a w h. h) no_objects
        (Calm-stored (λ a s. law.read s k ≡ some bytes) (λ s. ⊥) (S.compose_object k keys)
          (λ s e.
            composed_by law k bytes keys s e (S.compose_object k keys s)
              (reliable.composes k keys bytes s e) (law.compose k keys s)))

  measured :
      (k : String)
      → Returns
          (Calm S T (λ s. law.read s k ≡ some bytes) L)
          (stored {S = S} (S.stat_object k))
          (λ n w. Calm S T (λ s. law.read s k ≡ some bytes) L w × (n ≡ length bytes))
  measured k =
      Ensures-weaken (λ w h. h) (λ a. apart_objects) no_objects
        (Calm-stored (λ n s. (law.read s k ≡ some bytes) × (n ≡ length bytes)) (λ s. ⊥)
          (S.stat_object k)
          (λ s e.
            measured_by law k bytes s e (S.stat_object k s) (reliable.stats k bytes s e)
              (law.stat k s)))

  fetched :
      (k : String)
      → Returns
          (Calm S T (λ s. law.read s k ≡ some bytes) L)
          (stored {S = S} (S.get_object k))
          (λ b w. Calm S T (λ s. law.read s k ≡ some bytes) L w × (b ≡ bytes))
  fetched k =
      Ensures-weaken (λ w h. h) (λ a. apart_objects) no_objects
        (Calm-stored (λ b s. (law.read s k ≡ some bytes) × (b ≡ bytes)) (λ s. ⊥) (S.get_object k)
          (λ s e.
            fetched_by law k bytes s e (S.get_object k s) (reliable.gets k bytes s e)
              (law.get k s)))

  -- the parts are there, and together have the size and the hash of the upload
  pub compose_parts-Returns :
      (task : UploadTask) (keys : List String)
      → task.file_size ≡ length bytes
      → task.file_hash ≡ sha256_hex bytes
      → Returns
          (Calm S T (λ s. joined (law.read s) keys ≡ some bytes) L)
          (compose_parts c sha256_hex task keys)
          (λ a. Calm S T (λ s. law.read s (final_object_key task) ≡ some bytes) L)
  unfolding compose_parts
  compose_parts-Returns task keys size hash =
      let k = final_object_key task in
      Ensures-then (or_failed_done c sha256_hex task (composed k keys)) (λ _.
        Ensures-bind (Ensures-attempt (measured k)) (λ r.
          Ensures-then
            (tested c sha256_hex task (failure "merged file size mismatch")
              (λ n. n == task.file_size) (length bytes) (ground (arith, size)) r)
            (λ _. Ensures-bind (Ensures-attempt (fetched k)) (λ b.
              tested c sha256_hex task (failure "merged file hash mismatch")
                (λ b. str_eq (sha256_hex b) task.file_hash) bytes
                (rw hash (eq_refl (sha256_hex bytes))) b))))
