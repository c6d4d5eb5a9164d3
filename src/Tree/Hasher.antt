-- ===== src/Tree/Hasher.antt =====
-- datatree/hasher.go: jobs that hash two slices into a third one, over the hash function of a third-party
-- package. A slice is a location of a memory.
use onvakv.Base.{ℕ, ◌≡◌, ◌≢◌, ◌⊎◌, List, [], ◌∷◌, ◌++◌, length, ltb, if◌then◌else◌}
use onvakv.Types.{Bytes}

-- What the slices of a batch of jobs refer to. Writing to one leaves the others.
pub record Memory : Type 1 where
  pub State : Type 0
  pub Loc : Type 0
  pub read : State → Loc → Bytes
  pub write : State → Loc → Bytes → State
  pub loc_cases : (l l' : Loc) → (l ≡ l') ⊎ (l ≢ l')
  pub read-write_self : (m : State) (l : Loc) (b : Bytes) → read (write m l b) l ≡ b
  pub read-write_ne :
      (m : State) (l l' : Loc) (b : Bytes) → l ≢ l' → read (write m l b) l' ≡ read m l'

abbrev pub minimum_jobs_in_goroutine : ℕ
minimum_jobs_in_goroutine = 20

pub record HashJob (M : Memory) : Type 0 where
  pub target : M.Loc
  pub level : ℕ
  pub src_a : M.Loc
  pub src_b : M.Loc

module _ (sha256 : Bytes → Bytes) where
  unfoldable pub hash : Bytes → Bytes
  hash b = sha256 b

  unfoldable pub hash2 : ℕ → Bytes → Bytes → Bytes
  hash2 level a b = sha256 (level ∷ (a ++ b))

  module _ (M : Memory) where
    -- What a job computes.
    abbrev pub hashed : M.State → HashJob M → Bytes
    hashed m job = sha256 (job.level ∷ (M.read m job.src_a ++ M.read m job.src_b))

    unfoldable pub run_job : HashJob M → M.State → M.State
    run_job job m = M.write m job.target (hashed m job)

    unfoldable pub run_all : List (HashJob M) → M.State → M.State
    run_all [] m = m
    run_all (job ∷ jobs) m = run_all jobs (run_job job m)

    -- Run: a short list of jobs is run twice, once here and once by the workers, which take the jobs one
    -- after the other from a shared index. `order` is the order in which their writes happen.
    unfoldable pub run : (order jobs : List (HashJob M)) → M.State → M.State
    run order jobs m =
        run_all order (if ltb (length jobs) minimum_jobs_in_goroutine then run_all jobs m else m)
