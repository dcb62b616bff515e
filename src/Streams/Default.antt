-- ===== src/Streams/Default.antt =====
-- runtime/src/globals/streams/readable/controller.rs: `DefaultController`.
use spiderfire.Prelude.{
  ℕ, ◌+◌, true, false, not, ◌&&◌, List, [], ◌∷◌, ◌++◌, Option, none, some, if◌then◌else◌, is_empty,
}
use spiderfire.Streams.System.{
  System, default_controller, M, Error, type_error, plain_error, js, read_result, settle, modify,
  throw, pure, ok, err, panicked, out_of_fuel, Result, ◌>>◌, Script,
}
use spiderfire.Streams.Stream.{is_readable, is_default, native_reader, set_requests}
use spiderfire.Streams.Stream
use spiderfire.Streams.Common.{
  set_common, set_default, clear_algorithms, can_close_or_enqueue, pull_if_needed, error_internal,
}

module _ {Buffer : Type 0} where
  -- `DefaultController::close`
  unfoldable pub close : M Buffer (Unit {0})
  unfolding Stream.close
  close s =
      let s1 =
        if is_empty s.default.queue
        then set_common (λ c. record c { close_requested = true }) s
        else s in
      if can_close_or_enqueue s
      then Stream.close (clear_algorithms default_controller s1)
      else throw type_error s

  -- The requests of the stream's reader, if it is a default reader.
  abbrev pub default_requests : System Buffer → List ℕ
  default_requests s =
      if is_default s.stream.reader_kind
      then elim (native_reader s) [ none ↦ [] | some r ↦ r.requests ]
      else []

  abbrev pub chunk_size : Script Buffer → Option ℕ → ℕ → M Buffer ℕ
  chunk_size h none chunk = pure 1
  chunk_size h (some f) chunk = h.size f chunk

  abbrev pub push_chunk : ℕ → ℕ → System Buffer → System Buffer
  push_chunk chunk n s =
      set_common (λ c. record c { queue_size = c.queue_size + n })
        (set_default (λ d. record d { queue = d.queue ++ (chunk, n) ∷ [] }) s)

  -- After the size function: a size that is no `u64`, or an exception, makes the stream errored.
  abbrev pub store :
      Script Buffer → ℕ → Result ℕ × System Buffer → Result (Unit {0}) × System Buffer
  store h chunk (ok n, s) = pull_if_needed h (push_chunk chunk n s)
  store h chunk (err e, s) = error_internal e s
  store h chunk (panicked, s) = (panicked, s)
  store h chunk (out_of_fuel, s) = (out_of_fuel, s)

  -- `DefaultController::enqueue_internal`
  unfoldable pub enqueue : Script Buffer → ℕ → M Buffer (Unit {0})
  unfolding pull_if_needed error_internal
  enqueue h chunk s =
      if can_close_or_enqueue s
      then elim (default_requests s) [
        | p ∷ rest ↦ pure tt (settle p (read_result (js chunk) false) (set_requests rest s))
        | [] ↦ store h chunk (chunk_size h s.default.size chunk s)
      ]
      else throw type_error s

  -- `DefaultController::error`
  unfoldable pub error : Error → M Buffer (Unit {0})
  unfolding error_internal
  error e = error_internal e

  abbrev pub close_if_done : Script Buffer → M Buffer (Unit {0})
  close_if_done h s =
      if s.common.close_requested && is_empty s.default.queue
      then Stream.close (clear_algorithms default_controller s)
      else pull_if_needed h s

  abbrev pub give : ℕ → ℕ → M Buffer (Unit {0})
  give promise chunk = modify (settle promise (read_result (js chunk) false))

  abbrev pub wait_on : Script Buffer → ℕ → M Buffer (Unit {0})
  wait_on h promise s =
      if is_default s.stream.reader_kind
      then elim (native_reader s) [
        | none ↦ pure tt s
        | some r ↦
            if not (is_readable s.stream.state)
            then throw plain_error s
            else pull_if_needed h (set_requests (r.requests ++ promise ∷ []) s)
      ]
      else pure tt s

  -- `Controller::pull` on a default controller, for the request with the promise `promise`.
  unfoldable pub pull : Script Buffer → ℕ → M Buffer (Unit {0})
  unfolding Stream.close pull_if_needed
  pull h promise s = elim s.default.queue [
    | (chunk, n) ∷ rest ↦
        (close_if_done h >> give promise chunk) (set_default (λ d. record d { queue = rest }) s)
    | [] ↦ wait_on h promise s
  ]
