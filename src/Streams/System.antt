-- ===== src/Streams/System.antt =====
-- The state of one readable stream (runtime/src/globals/streams/readable/): the stream, its
-- controller, the readers made for it, and what happened to promises. Objects, promises, functions
-- and values of the engine are addresses. `Buffer` is the type of ArrayBuffers.
use spiderfire.Prelude.{ℕ, Bool, List, ◌∷◌, [], ◌++◌, Option, suc}
use spiderfire.Streams.Descriptor.{PullIntoDescriptor, Chunk, ReaderKind}

pub data ControllerKind : Type 0 where
  default_controller byte_stream_controller : ControllerKind

pub data State : Type 0 where
  readable closed errored : State

-- An error made by native code, or a value thrown by a script.
pub data Error : Type 0 where
  type_error range_error plain_error : Error
  thrown : ℕ → Error

pub record ReadableStream : Type 0 where
  pub controller_kind : ControllerKind
  pub reader_kind : ReaderKind
  pub reader : Option ℕ
  pub state : State
  pub disturbed : Bool
  pub error : Option Error

-- source.rs: a stream made by a script, or with no source.
pub data StreamSource : Type 0 where
  no_source : StreamSource
  script : Option ℕ → Option ℕ → StreamSource

-- `exceeds n` is `high_water_mark > n as f64`.
pub record CommonController : Type 0 where
  pub source : StreamSource
  pub started : Bool
  pub pulling : Bool
  pub pull_again : Bool
  pub close_requested : Bool
  pub exceeds : ℕ → Bool
  pub queue_size : ℕ

pub record DefaultController : Type 0 where
  pub size : Option ℕ
  pub queue : List (ℕ × ℕ)

pub record ByteStreamController (Buffer : Type 0) : Type 0 where
  pub auto_allocate_chunk_size : ℕ
  pub byob_request : Option ℕ
  pub pending_descriptors : List (PullIntoDescriptor Buffer)
  pub queue : List (Chunk Buffer)

-- `controller` says whether the request is still tied to its controller; the view is a range of
-- the front descriptor's buffer.
pub record ByobRequest : Type 0 where
  pub controller : Bool
  pub view : Option (ℕ × ℕ)

-- reader.rs: `attached` is `stream.is_some()`. A request is that of `Request::standard`, which is
-- known by its promise.
pub record CommonReader : Type 0 where
  pub attached : Bool
  pub requests : List ℕ
  pub closed : ℕ

-- A chunk that a script enqueued, a view of a buffer, or `undefined`.
pub data Value (Buffer : Type 0) : Type 0 where
  js : ℕ → Value Buffer
  view : Buffer → ℕ → ℕ → Value Buffer
  undefined null : Value Buffer
  error_object : Error → Value Buffer

-- What native code did to a promise: resolved it with `{ value, done }`, with a bare value, or
-- rejected it.
pub data Settlement (Buffer : Type 0) : Type 0 where
  read_result : Value Buffer → Bool → Settlement Buffer
  resolved : Value Buffer → Settlement Buffer
  rejected : Value Buffer → Settlement Buffer

-- The reactions that the controller adds to the promise of `start` and to those of `pull`.
pub data Reaction : Type 0 where
  on_start on_pull : Reaction

-- Of the two controllers, the one of `stream.controller_kind` exists.
pub record System (Buffer : Type 0) : Type 0 where
  pub stream : ReadableStream
  pub common : CommonController
  pub default : DefaultController
  pub bytes : ByteStreamController Buffer
  pub readers : List CommonReader
  pub byob_requests : List ByobRequest
  pub settled : List (ℕ × Settlement Buffer)
  pub reactions : List (ℕ × Reaction)
  pub next_promise : ℕ

-- `panicked` is an `unwrap` of nothing, `out_of_fuel` the end of the fuel of a loop.
pub data Result (A : Type 0) : Type 0 where
  ok : A → Result A
  err : Error → Result A
  panicked : Result A
  out_of_fuel : Result A

-- What was changed before an error stays changed.
abbrev pub M : Type 0 → Type 0 → Type 0
M Buffer A = System Buffer → Result A × System Buffer

module _ {Buffer A B : Type 0} where
  abbrev pub then_do : Result A × System Buffer → (A → M Buffer B) → Result B × System Buffer
  then_do (ok a, s) f = f a s
  then_do (err e, s) f = (err e, s)
  then_do (panicked, s) f = (panicked, s)
  then_do (out_of_fuel, s) f = (out_of_fuel, s)

  infixl 5 ◌>>=◌ ◌>>◌
  abbrev pub ◌>>=◌ : M Buffer A → (A → M Buffer B) → M Buffer B
  ◌>>=◌ m f s = then_do (m s) f

  abbrev pub ◌>>◌ : M Buffer A → M Buffer B → M Buffer B
  m >> k = m >>= λ _. k

module _ {Buffer A : Type 0} where
  abbrev pub pure : A → M Buffer A
  pure a s = (ok a, s)

  abbrev pub throw : Error → M Buffer A
  throw e s = (err e, s)

  abbrev pub panic : M Buffer A
  panic s = (panicked, s)

  abbrev pub gets : (System Buffer → A) → M Buffer A
  gets f s = (ok (f s), s)

module _ {Buffer : Type 0} where
  abbrev pub modify : (System Buffer → System Buffer) → M Buffer (Unit {0})
  modify f s = (ok tt, f s)

  abbrev pub settle : ℕ → Settlement Buffer → System Buffer → System Buffer
  settle p r s = record s { settled = s.settled ++ (p, r) ∷ [] }

  -- `Promise::new`
  abbrev pub new_promise : M Buffer ℕ
  new_promise s = (ok s.next_promise, record s { next_promise = suc s.next_promise })

-- What scripts do when the stream calls them: the `pull` and `cancel` functions of the source, and
-- the `size` function of the strategy with the conversion of its result to a `u64`. They may call
-- any method of the stream before they return.
pub record Script (Buffer : Type 0) : Type 0 where
  pub pull : ℕ → M Buffer ℕ
  pub cancel : ℕ → Option ℕ → M Buffer (Option ℕ)
  pub size : ℕ → ℕ → M Buffer ℕ
