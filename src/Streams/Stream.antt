-- ===== src/Streams/Stream.antt =====
-- runtime/src/globals/streams/readable/mod.rs: the internal methods of `ReadableStream` that end
-- it, and access to its reader.
use spiderfire.Prelude.{
  ℕ, Bool, true, false, not, List, [], ◌∷◌, Option, none, some, if◌then◌else◌, get_elem?, set,
}
use spiderfire.Streams.Descriptor.{ReaderKind, none_kind, default_kind, byob_kind}
use spiderfire.Streams.System.{
  System, ReadableStream, CommonReader, State, readable, closed, errored, M, Error, plain_error,
  Value, undefined, error_object, Settlement, read_result, resolved, rejected, settle, throw, pure,
}

abbrev pub is_readable : State → Bool
is_readable readable = true
is_readable closed = false
is_readable errored = false

abbrev pub is_closed : State → Bool
is_closed readable = false
is_closed closed = true
is_closed errored = false

abbrev pub is_default : ReaderKind → Bool
is_default none_kind = false
is_default default_kind = true
is_default byob_kind = false

abbrev pub is_none_kind : ReaderKind → Bool
is_none_kind none_kind = true
is_none_kind default_kind = false
is_none_kind byob_kind = false

abbrev pub is_byob : ReaderKind → Bool
is_byob none_kind = false
is_byob default_kind = false
is_byob byob_kind = true

abbrev pub reader_of : ReaderKind → Option ℕ → List CommonReader → Option CommonReader
reader_of none_kind r rs = none
reader_of default_kind none rs = none
reader_of default_kind (some i) rs = get_elem? rs i
reader_of byob_kind none rs = none
reader_of byob_kind (some i) rs = get_elem? rs i

abbrev pub set_at : Option ℕ → CommonReader → List CommonReader → List CommonReader
set_at none r rs = rs
set_at (some i) r rs = set rs i r

module _ {Buffer : Type 0} where
  -- The reader of the stream: `native_reader`.
  abbrev pub native_reader : System Buffer → Option CommonReader
  native_reader s = reader_of s.stream.reader_kind s.stream.reader s.readers

  abbrev pub put_reader : CommonReader → System Buffer → System Buffer
  put_reader r s = record s { readers = set_at s.stream.reader r s.readers }

  abbrev pub set_requests : List ℕ → System Buffer → System Buffer
  set_requests q s = elim (native_reader s) [
    | none ↦ s
    | some r ↦ put_reader (record r { requests = q }) s
  ]

  abbrev pub set_stream : (ReadableStream → ReadableStream) → System Buffer → System Buffer
  set_stream f s = record s { stream = f s.stream }

  -- The same settlement for each request, in order.
  unfoldable pub settle_all : Settlement Buffer → List ℕ → System Buffer → System Buffer
  settle_all v [] s = s
  settle_all v (p ∷ ps) s = settle_all v ps (settle p v s)

  -- `ReadableStream::close`: the requests of a default reader are closed, those of a BYOB reader
  -- stay.
  unfoldable pub close_reader : CommonReader → System Buffer → System Buffer
  unfolding settle_all
  close_reader r s =
      let s1 = settle r.closed (resolved undefined) s in
      if is_default s.stream.reader_kind
      then set_requests [] (settle_all (read_result undefined true) r.requests s1)
      else s1

  unfoldable pub close : M Buffer (Unit {0})
  unfolding close_reader
  close s =
      if not (is_readable s.stream.state)
      then throw plain_error s
      else let s1 = set_stream (λ t. record t { state = closed }) s in
        elim (native_reader s1) [ none ↦ pure tt s1 | some r ↦ pure tt (close_reader r s1) ]

  -- `ReadableStream::error`: every request is settled with the error, by the `error` closure of
  -- `Request::standard`.
  unfoldable pub error_reader : Value Buffer → CommonReader → System Buffer → System Buffer
  unfolding settle_all
  error_reader e r s =
      set_requests [] (settle_all (resolved e) r.requests (settle r.closed (rejected e) s))

  unfoldable pub error : Error → M Buffer (Unit {0})
  unfolding error_reader
  error e s =
      if not (is_readable s.stream.state)
      then throw plain_error s
      else let s1 = set_stream (λ t. record t { state = errored; error = some e }) s in
        elim (native_reader s1) [
          | none ↦ pure tt s1
          | some r ↦ pure tt (error_reader (error_object e) r s1)
        ]
