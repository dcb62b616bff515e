-- ===== src/Streams/Queueing.antt =====
-- The queue of a default controller: the order of delivery, its size, and closing.
use mathlib.Core.List.{append_assoc, append-nil}
use spiderfire.Prelude.{
  ℕ, suc, ◌+◌, ◌≡◌, sym, ap, ◌∙◌, Bool, true, false, not, ◌&&◌, List, [], ◌∷◌, ◌++◌, map, none,
  arith, if◌then◌else◌, is_empty, length, inl, inr, Bool-cases,
}
use spiderfire.Streams.System.{
  System, M, Result, ok, err, Script, pure, ◌>>◌, readable, Settlement, read_result, js, settle,
  default_controller, err, type_error, then_do,
}
use spiderfire.Streams.Stream.{is_readable, native_reader, set_requests}
use spiderfire.Streams.Stream
use spiderfire.Streams.Common.{
  set_common, set_default, should_call_pull, pull_if_needed, clear_algorithms,
}
use spiderfire.Streams.Default.{enqueue, pull, default_requests, store, chunk_size, give}

abbrev pub one : ℕ → ℕ × ℕ
one c = (c, 1)

module _ {Buffer : Type 0} where
  -- Each request is settled with the chunk at its place.
  abbrev pub delivered : List ℕ → List ℕ → List (ℕ × Settlement Buffer)
  delivered [] cs = []
  delivered (p ∷ ps) [] = []
  delivered (p ∷ ps) (c ∷ cs) = (p, read_result (js c) false) ∷ delivered ps cs

module _ {Buffer : Type 0} (h : Script Buffer) where
  -- Only the parts that chunks pass through.
  abbrev pub state :
      List (ℕ × ℕ) → ℕ → Bool → List (ℕ × Settlement Buffer) → System Buffer → System Buffer
  state q n b log s =
      record (set_common (λ c. record c { queue_size = n; pull_again = b })
        (set_default (λ d. record d { queue = q }) s)) { settled = log }

  -- A default stream that is open, whose source has not answered its last call, whose reader has no
  -- request and that has no size function.
  pub record Storing (s : System Buffer) : Type 0 where
    pub busy : s.common.pulling ≡ true
    pub is_open : s.stream.state ≡ readable
    pub not_closing : s.common.close_requested ≡ false
    pub no_request : default_requests s ≡ []
    pub no_size : s.default.size ≡ none

  -- With a busy source `pull_if_needed` only notes that it was called.
  pull_if_needed-busy :
      (s : System Buffer)
      → s.common.pulling ≡ true
      → (b : Bool) × (pull_if_needed h s ≡ (ok tt, set_common (λ c. record c { pull_again = b }) s))
  unfolding pull_if_needed
  pull_if_needed-busy s p = elim (Bool-cases (should_call_pull s)) [
    | inl asks ↦ (true, rw (asks, p))
    | inr idle ↦ (s.common.pull_again, rw idle)
  ]

  n_zero : (n : ℕ) → n ≡ n + 0
  n_zero n = omega arith

  one_more : (n k : ℕ) → n + 1 + k ≡ n + suc k
  one_more n k = omega arith

  -- Several calls in a row.
  unfoldable pub enqueue_all : List ℕ → M Buffer (Unit {0})
  enqueue_all [] = pure tt
  enqueue_all (c ∷ cs) = enqueue h c >> enqueue_all cs

  unfoldable pub pull_all : List ℕ → M Buffer (Unit {0})
  pull_all [] = pure tt
  pull_all (p ∷ ps) = pull h p >> pull_all ps

  abbrev Log : Type 0
  Log = List (ℕ × Settlement Buffer)

  enqueue-state :
      (chunk : ℕ) (q : List (ℕ × ℕ)) (n : ℕ) (b : Bool) (log : Log) (s : System Buffer)
      → Storing s
      → (b' : Bool) × (enqueue h chunk (state q n b log s)
          ≡ (ok tt, state (q ++ one chunk ∷ []) (n + 1) b' log s))
  unfolding enqueue
  enqueue-state chunk q n b log s v =
      let (b', e) = pull_if_needed-busy (state (q ++ one chunk ∷ []) (n + 1) b log s) v.busy in
      (
        b',
        ap
              (λ t.
                if is_readable t && not s.common.close_requested
                then served (default_requests s)
                else stop)
              v.is_open
            ∙ ap (λ c. if not c then served (default_requests s) else stop) v.not_closing
            ∙ ap served v.no_request
            ∙ ap (λ z. store h chunk (chunk_size h z chunk now)) v.no_size
            ∙ e,
      )
    where
      now : System Buffer
      now = state q n b log s

      stop : Result (Unit {0}) × System Buffer
      stop = (err type_error, now)

      served : List ℕ → Result (Unit {0}) × System Buffer
      served (p ∷ rest) = (ok tt, settle p (read_result (js chunk) false) (set_requests rest now))
      served [] = store h chunk (chunk_size h s.default.size chunk now)

  pull-state :
      (p c w : ℕ) (q : List (ℕ × ℕ)) (n : ℕ) (b : Bool) (log : Log) (s : System Buffer)
      → Storing s
      → (b' : Bool) × (pull h p (state ((c, w) ∷ q) n b log s)
          ≡ (ok tt, state q n b' (log ++ (p, read_result (js c) false) ∷ []) s))
  unfolding pull
  pull-state p c w q n b log s v =
      let (b', e) = pull_if_needed-busy (state q n b log s) v.busy in
      (
        b',
        ap
              (λ x.
                then_do (if x && is_empty q then ending else pull_if_needed h (state q n b log s))
                  (λ _. give p c))
              v.not_closing
            ∙ ap (λ r. then_do r (λ _. give p c)) e,
      )
    where
      ending : Result (Unit {0}) × System Buffer
      ending = Stream.close (clear_algorithms default_controller (state q n b log s))

  enqueue_all-state :
      (cs : List ℕ) (q : List (ℕ × ℕ)) (n : ℕ) (b : Bool) (log : Log) (s : System Buffer)
      → Storing s
      → (b' : Bool) × (enqueue_all cs (state q n b log s)
          ≡ (ok tt, state (q ++ map one cs) (n + length cs) b' log s))
  unfolding enqueue_all
  enqueue_all-state [] q n b log s v = (
    b,
    ap (λ l. (ok tt, state l n b log s)) (sym (append-nil q))
        ∙ ap (λ k. (ok tt, state (q ++ []) k b log s)) (n_zero n),
  )
  enqueue_all-state (c ∷ cs) q n b log s v =
      let (b1, e1) = enqueue-state c q n b log s v in
      let (b2, e2) = enqueue_all-state cs (q ++ one c ∷ []) (n + 1) b1 log s v in
      (
        b2,
        ap (λ r. then_do r (λ _. enqueue_all cs)) e1
            ∙ e2
            ∙ ap (λ l. (ok tt, state l (n + 1 + length cs) b2 log s))
                (append_assoc q (one c ∷ []) (map one cs))
            ∙ ap (λ k. (ok tt, state (q ++ map one (c ∷ cs)) k b2 log s)) (one_more n (length cs)),
      )

  pull_all-state :
      (ps cs : List ℕ) (n : ℕ) (b : Bool) (log : Log) (s : System Buffer)
      → Storing s
      → length ps ≡ length cs
      → (b' : Bool) × (pull_all ps (state (map one cs) n b log s)
          ≡ (ok tt, state [] n b' (log ++ delivered ps cs) s))
  unfolding pull_all
  pull_all-state [] [] n b log s v h =
      (b, ap (λ l. (ok tt, state [] n b l s)) (sym (append-nil log)))
  pull_all-state [] (c ∷ cs) n b log s v h = ground (arith, h)
  pull_all-state (p ∷ ps) [] n b log s v h = ground (arith, h)
  pull_all-state (p ∷ ps) (c ∷ cs) n b log s v h =
      let (b1, e1) = pull-state p c 1 (map one cs) n b log s v in
      let (b2, e2) =
        pull_all-state ps cs n b1 (log ++ (p, read_result (js c) false) ∷ []) s v
          (omega (arith, h)) in
      (
        b2,
        ap (λ r. then_do r (λ _. pull_all ps)) e1
            ∙ e2
            ∙ ap (λ l. (ok tt, state [] n b2 l s))
                (append_assoc log ((p, read_result (js c) false) ∷ []) (delivered ps cs)),
      )

  -- On an open default stream with no size function and no waiting request, whose source has not
  -- yet answered its last call: chunks that are enqueued and then read by as many requests are
  -- delivered in the order of their arrival, each to the request at its place, and the queue is
  -- empty again; but the size of the queue stays greater by the number of chunks.
  pub pull_all-enqueue_all :
      (ps cs : List ℕ) (n : ℕ) (b : Bool) (log : Log) (s : System Buffer)
      → Storing s
      → length ps ≡ length cs
      → (b' : Bool) × ((enqueue_all cs >> pull_all ps) (state [] n b log s)
          ≡ (ok tt, state [] (n + length cs) b' (log ++ delivered ps cs) s))
  pull_all-enqueue_all ps cs n b log s v h =
      let (b1, e1) = enqueue_all-state cs [] n b log s v in
      let (b2, e2) = pull_all-state ps cs (n + length cs) b1 log s v h in
      (b2, ap (λ r. then_do r (λ _. pull_all ps)) e1 ∙ e2)
