-- ===== src/Streams/Examples.antt =====
-- Streams on small inputs, over buffers that are lists of bytes.
use spiderfire.Prelude.{
  ℕ, zero, suc, ◌+◌, ◌≤◌, ◌≡◌, refl, inr, Bool, true, false, ◌&&◌, List, [], ◌∷◌, Option, none,
  some, arith, length, leb, ◌==◌, if◌then◌else◌,
}
use spiderfire.Streams.Memory.{Memory, slice, write_at}
use spiderfire.Streams.Descriptor.{
  PullIntoDescriptor, Filling, copied, fill_pull_into_descriptor, none_kind, default_kind,
  byob_kind,
}
use spiderfire.Streams.Descriptor.Fill.{IsValid, Moves}
use spiderfire.Streams.Descriptor.Answer.{
  Waiting, amount, Answer, fill_pull_into_descriptor-Moves, fill_pull_into_descriptor-Answer,
}
use spiderfire.Streams.System.{
  System, Script, script, default_controller, byte_stream_controller, readable, CommonReader, ok,
  err, out_of_fuel, type_error, range_error, read_result, resolved, rejected, js, undefined,
  error_object, thrown, ◌>>◌,
}
use spiderfire.Streams.ByteStream.{process_descriptors}
use spiderfire.Streams.ByteStream.Descriptors.{IsFull, process_descriptors-stuck}
use spiderfire.Streams.Common.{clear_algorithms}
use spiderfire.Streams.Stream
use spiderfire.Streams.Default
use spiderfire.Streams.Reader
use spiderfire.Streams.Readable.{get_reader, cancel}
use spiderfire.Streams.Respond.{respond}
use spiderfire.Streams.Respond.Checks.{respond-Refused}
use spiderfire.Streams.Ending.{closed_stream, errored_stream, dismissed, error-reader, close_drops}
use spiderfire.Streams.Locking.{
  get_reader-locked, cancel-get_reader, cancel-silent, byob_read-released,
}
use spiderfire.Streams.Queueing.{Storing, state, enqueue_all, pull_all, pull_all-enqueue_all}

abbrev Bytes : Type 0
Bytes = List ℕ

abbrev copy_data_to : Bytes → Bytes → ℕ → ℕ → ℕ → Option Bytes
copy_data_to source target i j n =
    if leb (i + n) (length source) && leb (j + n) (length target)
    then some (write_at j (slice i n source) target)
    else none

copy_in_range :
    (source target : Bytes) (i j n : ℕ)
    → i + n ≤ length source
    → j + n ≤ length target
    → (b : Bytes) × (copy_data_to source target i j n ≡ some b)
      × (b ≡ write_at j (slice i n source) target)
copy_in_range source target i j n h k =
    let first : leb (i + n) (length source) ≡ true = ground arith in
    let second : leb (j + n) (length target) ≡ true = ground arith in
    (write_at j (slice i n source) target, rw (first, second) refl, refl)

some-inj : {a b : Bytes} → some a ≡ some b → b ≡ a
some-inj h = cc

abbrev zeros : ℕ → Bytes
zeros zero = []
zeros (suc n) = 0 ∷ zeros n

abbrev memory : Memory
memory = record {
  Buffer = Bytes;
  bytes = λ b. b;
  copy_data_to = copy_data_to;
  copy_in_range = copy_in_range;
  transfer = λ b. some b;
  transfer-bytes = λ b h. some-inj h;
  clone = λ b i n. some (slice i n b);
  clone-bytes = λ b i n h. some-inj h;
  new = λ n. some (zeros n);
  constructs = λ b i n e. true;
}

abbrev quiet : Script Bytes
quiet = record {
  pull = λ f s. (ok 90, s);
  cancel = λ f reason s. (ok (some 91), s);
  size = λ f chunk s. (ok 1, s);
}

-- A view of four bytes at 1 that holds two of the three that it needs, and two chunks.
abbrev half_full : PullIntoDescriptor Bytes
half_full = record {
  buffer = 0 ∷ 1 ∷ 2 ∷ 0 ∷ 0 ∷ [];
  offset = 1;
  length = 4;
  filled = 2;
  min = 3;
  element = 1;
  kind = byob_kind;
}

abbrev filling : Filling Bytes
filling = record {
  queue = (3 ∷ [], 0, 1) ∷ (9 ∷ 4 ∷ 5 ∷ [], 1, 2) ∷ [];
  queue_size = 3;
  descriptor = half_full;
}

filling-IsValid : IsValid memory filling
filling-IsValid = record {
  counted = refl;
  in_range = (omega arith, (omega arith, tt));
  fits = record { inside = omega arith; not_over = omega arith };
}

half_full-Waiting : Waiting memory half_full
half_full-Waiting = record { some_element = omega arith; aligned = refl; short = omega arith }

fill_pull_into_descriptor-Moves_example :
    Moves memory (amount memory filling) filling (fill_pull_into_descriptor memory filling).1
fill_pull_into_descriptor-Moves_example =
    fill_pull_into_descriptor-Moves memory filling filling-IsValid half_full-Waiting

abbrev filled : Filling Bytes
filled = record {
  queue = (9 ∷ 4 ∷ 5 ∷ [], 2, 1) ∷ [];
  queue_size = 1;
  descriptor = record half_full { buffer = 0 ∷ 1 ∷ 2 ∷ 3 ∷ 4 ∷ []; filled = 4 };
}

filling_run : (fill_pull_into_descriptor memory filling).1 ≡ copied filled
unfolding fill_pull_into_descriptor
filling_run = refl

fill_pull_into_descriptor-Answer_example :
    Answer memory (fill_pull_into_descriptor memory filling).0 filled
fill_pull_into_descriptor-Answer_example =
    fill_pull_into_descriptor-Answer memory filling filled filling-IsValid half_full-Waiting
      filling_run

-- A default stream with a reader that has two requests, and a source that was asked.
abbrev reader : CommonReader
reader = record { attached = true; requests = 11 ∷ 12 ∷ []; closed = 10 }

abbrev stream : System Bytes
stream = record {
  stream = record {
    controller_kind = default_controller;
    reader_kind = default_kind;
    reader = some 0;
    state = readable;
    disturbed = false;
    error = none;
  };
  common = record {
    source = script (some 80) none;
    started = true;
    pulling = true;
    pull_again = false;
    close_requested = false;
    exceeds = λ n. n == 0;
    queue_size = 0;
  };
  default = record { size = none; queue = [] };
  bytes = record {
    auto_allocate_chunk_size = 0;
    byob_request = none;
    pending_descriptors = [];
    queue = [];
  };
  readers = reader ∷ [];
  byob_requests = [];
  settled = [];
  reactions = [];
  next_promise = 13;
}

abbrev byte_stream : System Bytes
byte_stream = record stream {
  stream = record stream.stream {
    controller_kind = byte_stream_controller;
    reader_kind = byob_kind;
  };
  common = record stream.common { queue_size = 1 };
  bytes = record stream.bytes {
    pending_descriptors = record half_full { filled = 4; min = 4 } ∷ [];
    queue = (7 ∷ [], 0, 1) ∷ [];
  };
}

full : IsFull memory (record half_full { filled = 4; min = 4 })
full = record { full = refl; whole = omega arith }

process_descriptors-stuck_example :
    process_descriptors memory 100 readable byte_stream ≡ (out_of_fuel, byte_stream)
process_descriptors-stuck_example =
    process_descriptors-stuck memory 100 readable (record half_full { filled = 4; min = 4 }) []
      byte_stream refl full (omega arith)

error-reader_example : Stream.error (thrown 40) stream ≡ (
  ok tt,
  dismissed
      (rejected (error_object (thrown 40)))
      (resolved (error_object (thrown 40)))
      reader
      (errored_stream (thrown 40) stream),
)
error-reader_example = error-reader (thrown 40) stream reader refl refl

abbrev two_chunks : System Bytes
two_chunks = record stream {
  default = record { size = none; queue = (60, 1) ∷ (61, 1) ∷ [] };
  common = record stream.common { queue_size = 2 };
}

close_drops_example : Default.close two_chunks ≡ (
  ok tt,
  dismissed
      (resolved undefined)
      (read_result undefined true)
      reader
      (closed_stream (clear_algorithms default_controller two_chunks)),
)
close_drops_example = close_drops two_chunks reader (60, 1) ((61, 1) ∷ []) refl refl refl refl refl

abbrev unlocked : System Bytes
unlocked = record stream {
  stream = record stream.stream { reader_kind = none_kind; reader = none };
  readers = record reader { attached = false } ∷ [];
}

get_reader-locked_example : get_reader (some true) stream ≡ (err type_error, stream)
get_reader-locked_example = get_reader-locked (some true) stream refl

cancel-get_reader_example :
    ((get_reader none unlocked).0 ≡ ok 1)
    × (Reader.cancel memory quiet 1 (some 5) (get_reader none unlocked).1
        ≡ (err type_error, (get_reader none unlocked).1))
cancel-get_reader_example = cancel-get_reader memory quiet (some 5) unlocked refl

cancel-silent_example :
    ((cancel memory quiet (some 5) unlocked).0 ≡ ok 13)
    × ((cancel memory quiet (some 5) unlocked).1.settled ≡ [])
cancel-silent_example = cancel-silent memory quiet (some 5) unlocked refl refl refl

abbrev view : Reader.View memory quiet
view = record { buffer = 0 ∷ 0 ∷ []; detached = false; offset = 0; len = 2; element = 1 }

byob_read-released_example : Reader.byob_read memory quiet 0 view 1 unlocked ≡ (
  ok 14,
  record unlocked { settled = (13, resolved (error_object type_error)) ∷ []; next_promise = 15 },
)
byob_read-released_example =
    byob_read-released memory quiet 0 view 1 unlocked (record reader { attached = false }) refl refl

abbrev waiting_source : System Bytes
waiting_source = record stream { readers = record reader { requests = [] } ∷ [] }

waiting_source-Storing : Storing quiet waiting_source
waiting_source-Storing = record {
  busy = refl;
  is_open = refl;
  not_closing = refl;
  no_request = refl;
  no_size = refl;
}

pull_all-enqueue_all_example :
    (b : Bool) × ((enqueue_all quiet (60 ∷ 61 ∷ []) >> pull_all quiet (14 ∷ 15 ∷ []))
        (state quiet [] 0 false [] waiting_source)
      ≡ (
        ok tt,
        state quiet [] 2 b
            ((14, read_result (js 60) false) ∷ (15, read_result (js 61) false) ∷ [])
            waiting_source,
      ))
pull_all-enqueue_all_example =
    pull_all-enqueue_all quiet (14 ∷ 15 ∷ []) (60 ∷ 61 ∷ []) 0 false [] waiting_source
      waiting_source-Storing refl

abbrev answering : System Bytes
answering = record byte_stream {
  bytes = record byte_stream.bytes { pending_descriptors = half_full ∷ []; queue = [] };
  common = record byte_stream.common { queue_size = 0 };
}

respond-Refused_example : respond memory quiet 9 3 answering ≡ (err range_error, answering)
respond-Refused_example =
    respond-Refused memory quiet 9 3 half_full [] range_error answering refl
      (inr (omega arith, omega arith, omega arith, refl))
