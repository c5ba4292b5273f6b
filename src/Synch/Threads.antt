-- ===== src/Synch/Threads.antt =====
-- Threads 0 to n - 1 by their program counters, and the list of sleeping threads of a wait channel
-- (`wc_threads` of kern/thread/thread.c).
use os.Base.{sym, ℕ, ◌<◌, ◌≡◌, ◌≢◌, List, [], ◌∷◌, ◌++◌, update, arith}

abbrev pub NotIn : ℕ → List ℕ → Type 0
NotIn i [] = Unit
NotIn i (t ∷ ts) = (i ≢ t) × NotIn i ts

NotIn-append : (t i : ℕ) (ts : List ℕ) → NotIn t ts → t ≢ i → NotIn t (ts ++ i ∷ [])
NotIn-append t i [] out ne = (ne, tt)
NotIn-append t i (u ∷ ts) out ne = (out.0, NotIn-append t i ts out.1 ne)

module _ {ℓ} {A : Type ℓ} where
  -- Every listed thread stands at `p`, and none is listed twice.
  abbrev pub Queued : A → ℕ → (ℕ → A) → List ℕ → Type ℓ
  Queued p n pc [] = Unit {ℓ}
  Queued p n pc (t ∷ ts) = (t < n) × (pc t ≡ p) × NotIn t ts × Queued p n pc ts

  NotIn-Queued :
      (p : A) (n : ℕ) (pc : ℕ → A) (i : ℕ) (ts : List ℕ) → pc i ≢ p → Queued p n pc ts → NotIn i ts
  NotIn-Queued p n pc i [] ne q = tt
  NotIn-Queued p n pc i (t ∷ ts) ne q = (λ e. ne (rw e q.1), NotIn-Queued p n pc i ts ne q.3)

  -- A thread that is not listed may move.
  pub Queued-update :
      (p : A) (n : ℕ) (pc : ℕ → A) (i : ℕ) (p' : A) (ts : List ℕ)
      → NotIn i ts
      → Queued p n pc ts
      → Queued p n (update pc i p') ts
  Queued-update p n pc i p' [] out q = tt
  Queued-update p n pc i p' (t ∷ ts) out q =
      (q.0, ground (arith, out.0, q.1), q.2, Queued-update p n pc i p' ts out.1 q.3)

  pub Queued-move :
      (p : A) (n : ℕ) (pc : ℕ → A) (i : ℕ) (p' : A) (ts : List ℕ)
      → pc i ≢ p
      → Queued p n pc ts
      → Queued p n (update pc i p') ts
  Queued-move p n pc i p' ts ne q = Queued-update p n pc i p' ts (NotIn-Queued p n pc i ts ne q) q

  -- A thread that goes to sleep is listed last.
  Queued-append :
      (p : A) (n : ℕ) (pc : ℕ → A) (i : ℕ) (ts : List ℕ)
      → i < n
      → NotIn i ts
      → Queued p n pc ts
      → Queued p n (update pc i p) (ts ++ i ∷ [])
  Queued-append p n pc i [] lt out q = (lt, ground arith, tt, tt)
  Queued-append p n pc i (t ∷ ts) lt out q = (
    q.0,
    ground (arith, out.0, q.1),
    NotIn-append t i ts q.2 (λ e. out.0 (sym e)),
    Queued-append p n pc i ts lt out.1 q.3,
  )

  pub Queued-sleep :
      (p : A) (n : ℕ) (pc : ℕ → A) (i : ℕ) (ts : List ℕ)
      → i < n
      → pc i ≢ p
      → Queued p n pc ts
      → Queued p n (update pc i p) (ts ++ i ∷ [])
  Queued-sleep p n pc i ts lt ne q = Queued-append p n pc i ts lt (NotIn-Queued p n pc i ts ne q) q
