-- ===== src/Server/Merge/Whole.antt =====
-- backend/internal/service/service.go: what `MergeUpload` leaves in the store where it returns.
use text.Mathlib.Text.{starts_with}
use mathlib.Core.Bool.{true≢false}
use mathlib.Core.Option.{some-injective}
use cloud_file.Base.{
  ℕ, ◌==◌, ◌≡◌, refl, sym, subst, ◌∙◌, Bool, true, false, String, List, Option, some, str_eq,
  eq_iff, ==_iff, length,
}
use cloud_file.Server.Model.{UploadTask}
use cloud_file.Server.Action.{Failure, failure, Outcome, done, fails, Action}
use cloud_file.Server.Action.Rules.{
  Ends, Ensures, Keeps, Ensures-pure, Ensures-raise, Ensures-bind, Ensures-then, Ensures-attempt,
  Ensures-weaken, Ensures-reads,
}
use cloud_file.Server.Storage.{ObjectStore, IsLawful, joined}
use cloud_file.Server.World.{Config, World, stored}
use cloud_file.Server.World.Rules.{Holds}
use cloud_file.Server.World.Objects.{Holds-stored}
use cloud_file.Server.Keys.{final_object_key}
use cloud_file.Server.Merge.{
  mark_upload_failed, passed, or_failed, fail_unless, is_that, compose_parts,
}

-- an object of that size and hash
pub record IsWhole (sha256_hex : List ℕ → String) (size : ℕ) (hash : String)
    (object : Option (List ℕ)) : Type 0 where
  pub bytes : List ℕ
  pub stored : object ≡ some bytes
  pub sized : length bytes ≡ size
  pub hashed : sha256_hex bytes ≡ hash

ended : {W A : Type 0} (x : Outcome A × W) → Ends (λ a w. Unit {0}) (λ w. Unit {0}) x
ended (done a, w) = tt
ended (fails e, w) = tt

-- anything ends somehow
pub anyhow : {W A : Type 0} (m : Action W A) → Keeps (λ w. Unit {0}) m
anyhow m = record { from = λ w h. ended (m w) }

module _ {S : ObjectStore} (c : Config) (sha256_hex : List ℕ → String) where
  pub mark-fails :
      {A : Type 0} {P : World S → Type 0} {Q : A → World S → Type 0} (task : UploadTask)
      (e : Failure)
      → Ensures P (mark_upload_failed c sha256_hex task e) Q (λ w. Unit {0})
  unfolding mark_upload_failed
  mark-fails task e =
      Ensures-weaken (λ w h. tt) (λ a w h. h) (λ w h. h)
        (Ensures-bind {Q = λ a w. Unit {0}} (Ensures-reads _ (λ w h. h))
          (λ now. Ensures-then {Q = λ a w. Unit {0}} (anyhow _) (λ _. Ensures-raise e (λ w h. h))))

  passed-Ensures :
      {A : Type 0} (E : World S → Type 0) {Q : A → World S → Type 0} (task : UploadTask)
      (r : Outcome A)
      → Ensures (λ w. Ends Q E (r, w)) (passed c sha256_hex task r) Q (λ w. Unit {0})
  unfolding passed
  passed-Ensures E task (done a) = Ensures-pure a (λ w h. h)
  passed-Ensures E task (fails e) = mark-fails task e

  pub or_failed-Ensures :
      {A : Type 0} {P E : World S → Type 0} {Q : A → World S → Type 0} (task : UploadTask)
      {m : Action (World S) A}
      → Ensures P m Q E
      → Ensures P (or_failed c sha256_hex task m) Q (λ w. Unit {0})
  unfolding or_failed
  or_failed-Ensures task h = Ensures-bind (Ensures-attempt h) (passed-Ensures _ task)

  pub fail_unless-Ensures :
      {P Q : World S → Type 0} (task : UploadTask) (e : Failure) (b : Bool)
      → (b ≡ true → (w : World S) → P w → Q w)
      → Ensures P (fail_unless c sha256_hex task e b) (λ a. Q) (λ w. Unit {0})
  unfolding fail_unless
  fail_unless-Ensures task e true h = Ensures-pure tt (h refl)
  fail_unless-Ensures task e false h = mark-fails task e

-- The object is there, of that length; `read` is what the store holds.
abbrev There : {T : Type 0} → (T → String → Option (List ℕ)) → String → T → Type 0
There {T} read k s = (b : List ℕ) × (read s k ≡ some b)

abbrev Long : {T : Type 0} → (T → String → Option (List ℕ)) → String → ℕ → T → Type 0
Long {T} read k n s = (b : List ℕ) × (read s k ≡ some b) × (length b ≡ n)

module _ {S : ObjectStore} (law : IsLawful S) (k : String) where
  composed_by :
      (sources : List String) (s : S.State) (x : Outcome (Unit {0}) × S.State)
      → Ends
          (λ a t.
            ((b : List ℕ) × (joined (law.read s) sources ≡ some b) × (law.read t k ≡ some b))
            × ((j : String) → starts_with j k ≡ false → law.read t j ≡ law.read s j))
          (λ t. (j : String) → starts_with j k ≡ false → law.read t j ≡ law.read s j)
          x
      → Ends (λ a. There law.read k) (λ t. Unit {0}) x
  composed_by sources s (done a, t) h = (h.0.0, h.0.2)
  composed_by sources s (fails e, t) h = tt

  measured_by :
      (s : S.State)
      → There law.read k s
      → (x : Outcome ℕ × S.State)
      → Ends
          (λ n t.
            ((b : List ℕ) → law.read s k ≡ some b → n ≡ length b)
            × ((j : String) → law.read t j ≡ law.read s j))
          (λ t. (j : String) → law.read t j ≡ law.read s j)
          x
      → Ends (λ n. Long law.read k n) (There law.read k) x
  measured_by s (b, e) (done n, t) h = (b, h.1 k ∙ e, sym (h.0 b e))
  measured_by s (b, e) (fails f, t) h = (b, h k ∙ e)

  fetched_by :
      (n : ℕ) (s : S.State)
      → Long law.read k n s
      → (x : Outcome (List ℕ) × S.State)
      → Ends
          (λ b t. (law.read s k ≡ some b) × ((j : String) → law.read t j ≡ law.read s j))
          (λ t. (j : String) → law.read t j ≡ law.read s j)
          x
      → Ends (λ b t. (law.read t k ≡ some b) × (length b ≡ n)) (Long law.read k n) x
  fetched_by n s (b, e, l) (done d, t) h =
      (h.1 k ∙ h.0, subst (λ x. length x ≡ n) (some-injective _ _ (sym e ∙ h.0)) l)
  fetched_by n s (b, e, l) (fails f, t) h = (b, h k ∙ e, l)

module _ {S : ObjectStore} (law : IsLawful S) (sha256_hex : List ℕ → String) where
  composed :
      (k : String) (sources : List String)
      → Ensures
          (Holds S (λ s. Unit {0}))
          (stored {S = S} (S.compose_object k sources))
          (λ a. Holds S (There law.read k))
          (Holds S (λ s. Unit {0}))
  composed k sources =
      Holds-stored (S.compose_object k sources) (λ s h.
        composed_by law k sources s (S.compose_object k sources s) (law.compose k sources s))

  measured :
      (k : String)
      → Ensures
          (Holds S (There law.read k))
          (stored {S = S} (S.stat_object k))
          (λ n. Holds S (Long law.read k n))
          (Holds S (There law.read k))
  measured k =
      Holds-stored (S.stat_object k)
        (λ s h. measured_by law k s h (S.stat_object k s) (law.stat k s))

  fetched :
      (k : String) (n : ℕ)
      → Ensures
          (Holds S (Long law.read k n))
          (stored {S = S} (S.get_object k))
          (λ b. Holds S (λ s. (law.read s k ≡ some b) × (length b ≡ n)))
          (Holds S (Long law.read k n))
  fetched k n =
      Holds-stored (S.get_object k) (λ s h. fetched_by law k n s h (S.get_object k s) (law.get k s))

  -- the tests of the size and of the hash, passed
  is_sized :
      (k : String) (n : ℕ) (r : Outcome ℕ) (w : World S)
      → is_that (λ m. m == n) r ≡ true
      → Ends (λ m. Holds S (Long law.read k m)) (Holds S (There law.read k)) (r, w)
      → Holds S (Long law.read k n) w
  is_sized k n (done m) w e h = subst (λ i. Holds S (Long law.read k i) w) ((==_iff m n).0 e) h
  is_sized k n (fails f) w e h = absurd (true≢false (sym e))

  is_hashed :
      (k : String) (n : ℕ) (hash : String) (r : Outcome (List ℕ)) (w : World S)
      → is_that (λ b. str_eq (sha256_hex b) hash) r ≡ true
      → Ends
          (λ b. Holds S (λ s. (law.read s k ≡ some b) × (length b ≡ n)))
          (Holds S (Long law.read k n))
          (r, w)
      → Holds S (λ s. IsWhole sha256_hex n hash (law.read s k)) w
  is_hashed k n hash (done b) w e h = record {
    objects = record {
      bytes = b;
      stored = h.objects.0;
      sized = h.objects.1;
      hashed = (eq_iff (sha256_hex b) hash).0 e;
    };
  }
  is_hashed k n hash (fails f) w e h = absurd (true≢false (sym e))

  pub compose_parts-IsWhole :
      (c : Config) (task : UploadTask) (keys : List String)
      → Ensures
          (λ w. Unit {0})
          (compose_parts c sha256_hex task keys)
          (λ a. Holds S (λ s.
            IsWhole sha256_hex task.file_size task.file_hash (law.read s (final_object_key task))))
          (λ w. Unit {0})
  unfolding compose_parts
  compose_parts-IsWhole c task keys =
      let k = final_object_key task in
      Ensures-weaken (λ w h. record { objects = tt }) (λ a w h. h) (λ w h. h)
        (Ensures-then (or_failed-Ensures c sha256_hex task (composed k keys)) (λ _.
          Ensures-bind (Ensures-attempt (measured k)) (λ size.
            Ensures-then
              (fail_unless-Ensures c sha256_hex task (failure "merged file size mismatch") _
                (λ e w h. is_sized k task.file_size size w e h))
              (λ _. Ensures-bind (Ensures-attempt (fetched k task.file_size)) (λ bytes.
                fail_unless-Ensures c sha256_hex task (failure "merged file hash mismatch") _
                  (λ e w h. is_hashed k task.file_size task.file_hash bytes w e h))))))
