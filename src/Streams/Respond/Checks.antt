-- ===== src/Streams/Respond/Checks.antt =====
-- What `respond` refuses.
use spiderfire.Prelude.{
  ℕ, ◌+◌, ◌<◌, ◌%◌, ◌^◌, ◌≡◌, refl, ap, ◌∙◌, ◌⊎◌, inl, inr, List, ◌∷◌, arith, ltb, ◌==◌, true,
  false,
}
use spiderfire.Streams.Memory.{Memory}
use spiderfire.Streams.System.{
  System, State, readable, closed, errored, err, Error, type_error, range_error, Script, M, then_do,
  modify, ◌>>=◌, ◌>>◌,
}
use spiderfire.Streams.Common.{invalidate_byob_request}
use spiderfire.Streams.ByteStream.{Descriptor, pending, set_front, or_throw, front}
use spiderfire.Streams.Respond.{respond, respond_in, check_written}

module _ (m : Memory) (h : Script m.Buffer) where
  open m use {Buffer, transfer}

  -- All that `respond` does after its checks.
  abbrev pub accepted : ℕ → ℕ → State → Descriptor m → M Buffer (Unit {0})
  accepted fuel written state d = do
    buffer ← or_throw m (transfer d.buffer)
    let d' = record d { buffer = buffer }
    modify (set_front m d')
    modify invalidate_byob_request
    respond_in m h fuel state written d'

  -- With a front descriptor, `respond` makes its checks and then goes on.
  respond-front :
      (fuel written : ℕ) (d : Descriptor m) (ds : List (Descriptor m)) (s : System Buffer)
      (st : State)
      → pending m s ≡ d ∷ ds
      → s.stream.state ≡ st
      → respond m h fuel written s
        ≡ then_do (check_written m st written d s) (λ _. accepted fuel written st d)
  unfolding respond
  respond-front fuel written d ds s st p e =
      ap (λ l. then_do (front m l s) from_front) p
      ∙ ap (λ q. then_do (check_written m q written d s) (λ _. accepted fuel written q d)) e
    where
      from_front : Descriptor m → M Buffer (Unit {0})
      from_front d t =
          then_do (check_written m t.stream.state written d t)
            (λ _. accepted fuel written t.stream.state d)

  -- What is refused, and with which error.
  abbrev pub Refused : State → Descriptor m → ℕ → Error → Type 0
  Refused readable d written x =
      ((written ≡ 0) × (x ≡ type_error))
      ⊎ ((0 < written)
          × (d.length < d.filled + written)
          × (d.filled + written < 2 ^ 64)
          × (x ≡ range_error))
  Refused closed d written x = (0 < written) × (x ≡ type_error)
  Refused errored d written x = x ≡ type_error

  above : (n len : ℕ) → n < 2 ^ 64 → len < n → ltb len (n % 2 ^ 64) ≡ true
  above n len small room =
      let same_sum : n % 2 ^ 64 ≡ n = omega (arith, small) in rw same_sum (ground (arith, room))

  check-Refused :
      (st : State) (written : ℕ) (d : Descriptor m) (x : Error) (s : System Buffer)
      → Refused st d written x
      → check_written m st written d s ≡ (err x, s)
  check-Refused readable written d x s (inl (z, e)) =
      let here : (written == 0) ≡ true = ground arith in rw (here, e) refl
  check-Refused readable written d x s (inr (more, room, small, e)) =
      let here : (written == 0) ≡ false = ground arith in
      let there : ltb d.length ((d.filled + written) % 2 ^ 64) ≡ true =
        above (d.filled + written) d.length small room in
      rw (here, there, e) refl
  check-Refused closed written d x s (more, e) =
      let here : (written == 0) ≡ false = ground arith in rw (here, e) refl
  check-Refused errored written d x s e = rw e refl

  -- With a front descriptor, respond refuses and changes nothing: no bytes for a readable stream,
  -- with a TypeError; more bytes than the descriptor has room for, if the sum of the bytes is
  -- below 2^64, with a RangeError; any bytes for a closed stream, with a TypeError; and any answer
  -- to an errored one, with a TypeError.
  pub respond-Refused :
      (fuel written : ℕ) (d : Descriptor m) (ds : List (Descriptor m)) (x : Error)
      (s : System Buffer)
      → pending m s ≡ d ∷ ds
      → Refused s.stream.state d written x
      → respond m h fuel written s ≡ (err x, s)
  respond-Refused fuel written d ds x s p r =
      respond-front fuel written d ds s s.stream.state p refl
      ∙ ap (λ t. then_do t (λ _. accepted fuel written s.stream.state d))
          (check-Refused s.stream.state written d x s r)
