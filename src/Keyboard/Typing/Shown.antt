-- ===== src/Keyboard/Typing/Shown.antt =====
-- What is typed is shown (`print_keypresses` and `add_scancode` of kernel/src/task/keyboard.rs).
use zulu_os.Base.{
  ℕ, ◌≤◌, ◌<◌, ◌≡◌, refl, sym, ◌∙◌, ap, List, [], ◌∷◌, ◌++◌, none, some, arith, length, subst, take,
  map, Option-cases, inl, inr,
}
use zulu_os.Vga.{Volatile, Writer, shown_byte}
use zulu_os.Vga.Document.{Document, Shows, type_bytes}
use zulu_os.Tasks.Queue.{ArrayQueue}
use zulu_os.Keyboard.{AtomicWaker, Statics, stream_new}
use zulu_os.Keyboard.Keypresses.{
  Decoder, print_event, print_keypresses, keys_text, print_keypresses_lem,
}
use zulu_os.Keyboard.Typing.{
  Holds, IsWaiting, strike, kept, Typing, type_batch, type_batches, typing,
}
use zulu_os.Keyboard.Typing.Strikes.{take-nil, length-take, strike_lem}
use zulu_os.Keyboard.Typing.Polls.{poll_keypresses_lem}

module _ (V : Volatile) (K : Decoder) (A : ArrayQueue) (W : AtomicWaker) where
  open V use {Cell}
  open K use {Keys, add_byte}

  -- A batch is printed, and the task waits for the next one.
  type_batch_lem :
      (fuel limit id : ℕ) (batch : List ℕ) (t : Typing V K A W) (keys : Keys) (w : Writer Cell)
      → 0 < limit
      → limit < fuel
      → IsWaiting A W limit id t.statics
      → print_keypresses V K (take limit batch) t.keys t.writer ≡ some (keys, w)
      → (s : Statics A W) × (type_batch V K A W fuel batch t
          ≡ some (record { keys = keys; writer = w; statics = s }))
        × IsWaiting A W limit id s
  unfolding type_batch strike print_keypresses
  type_batch_lem fuel limit id [] t keys w pos enough waits e =
      let print_none : some (t.keys, t.writer) ≡ some (keys, w) =
        ap (λ l. print_keypresses V K l t.keys t.writer) (sym (take-nil A W limit)) ∙ e in
      let same : t.keys ≡ keys = ap (λ o. elim o [ none ↦ t.keys | some r ↦ r.0 ]) print_none in
      let same_w : t.writer ≡ w = ap (λ o. elim o [ none ↦ t.writer | some r ↦ r.1 ]) print_none in
      (
        record t.statics { woken = [] },
        rw (same, same_w) refl,
        record {
          none_held = record {
            queue = waits.none_held.queue;
            is_queue = waits.none_held.is_queue;
            held_items = waits.none_held.held_items;
            limited = waits.none_held.limited;
          };
          on_call = waits.on_call;
        },
      )
  type_batch_lem fuel limit id (x ∷ xs) t keys w pos enough waits e =
      let s0 : Statics A W = record t.statics { woken = [] } in
      let waits0 : IsWaiting A W limit id s0 = record {
        none_held = record {
          queue = waits.none_held.queue;
          is_queue = waits.none_held.is_queue;
          held_items = waits.none_held.held_items;
          limited = waits.none_held.limited;
        };
        on_call = waits.on_call;
      } in
      let (woken, h) = strike_lem A W limit id x xs s0 pos waits0 refl in
      let few : length (take limit (x ∷ xs)) ≤ limit = length-take A W limit (x ∷ xs) in
      let (s, ep, waits') =
        poll_keypresses_lem V K A W fuel limit id (take limit (x ∷ xs))
          (record t { statics = strike A W (x ∷ xs) s0 }) keys w h (omega arith) e in
      (s, rw (woken, type_batch) ep, waits')

  print_keypresses-append :
      (xs ys : List ℕ) (keys keys1 : Keys) (w w1 : Writer Cell)
      → print_keypresses V K xs keys w ≡ some (keys1, w1)
      → print_keypresses V K (xs ++ ys) keys w ≡ print_keypresses V K ys keys1 w1
  unfolding print_keypresses
  print_keypresses-append [] ys keys keys1 w w1 e =
      ap
        (λ o. elim o [
          | none ↦ print_keypresses V K ys keys w
          | some r ↦ print_keypresses V K ys r.0 r.1
        ])
        e
  print_keypresses-append (x ∷ xs) ys keys keys1 w w1 e =
      elim (Option-cases (print_event V K (add_byte x keys) w)) [
        | inl panics ↦ absurd (ground (arith, e, panics))
        | inr ((keys2, w2), printed) ↦
            rw printed (print_keypresses-append xs ys keys2 keys1 w2 w1 (rw printed at e))
      ]

  type_batches-Printed :
      (fuel limit id : ℕ) (batches : List (List ℕ)) (t : Typing V K A W) (d : Document)
      → 0 < limit
      → limit < fuel
      → IsWaiting A W limit id t.statics
      → Shows V t.writer d
      → (t' : Typing V K A W) × (type_batches V K A W fuel batches t ≡ some t')
        × (print_keypresses V K (kept limit batches) t.keys t.writer ≡ some (t'.keys, t'.writer))
        × IsWaiting A W limit id t'.statics
  unfolding type_batches print_keypresses
  type_batches-Printed fuel limit id [] t d pos enough waits shows = (t, refl, refl, waits)
  type_batches-Printed fuel limit id (batch ∷ batches) t d pos enough waits shows =
      let (keys1, w1, e1, shows1) =
        print_keypresses_lem V K (take limit batch) t.keys t.writer d shows in
      let (s1, b1, waits1) = type_batch_lem fuel limit id batch t keys1 w1 pos enough waits e1 in
      let t1 : Typing V K A W = record { keys = keys1; writer = w1; statics = s1 } in
      let (t', b2, e2, waits2) =
        type_batches-Printed fuel limit id batches t1 _ pos enough waits1 shows1 in
      (
        t',
        rw (b1, type_batches) b2,
        print_keypresses-append (take limit batch) (kept limit batches) t.keys keys1 t.writer w1 e1
            ∙ e2,
        waits2,
      )

  stream_new-Holds :
      (s : Statics A W) → s.scancode_queue ≡ none → Holds A W 128 [] (stream_new A W s)
  unfolding stream_new
  stream_new-Holds s e =
      rw (e, stream_new)
        (record {
          queue = A.new 128;
          is_queue = refl;
          held_items = A.items_new 128;
          limited = A.capacity_new 128;
        })

  -- Keys that are typed reach the screen. The task of `print_keypresses` starts before there is a queue of
  -- scancodes, and from then on batches of scancodes come while it sleeps; the executor polls it when the
  -- interrupt has woken it. With more fuel than the queue has room for, nothing panics, and after each
  -- batch the task waits again, its waker registered and the queue empty. The screen shows, behind what
  -- it showed, the text of the keys that the decoder makes of the scancodes, in the order in
  -- which they came: all of them but those of a batch that go beyond the 128 that the queue holds.
  pub typing_lem :
      (fuel id : ℕ) (batches : List (List ℕ)) (t : Typing V K A W) (d : Document)
      → 128 < fuel
      → t.statics.scancode_queue ≡ none
      → Shows V t.writer d
      → (t' : Typing V K A W) × (typing V K A W fuel id batches t ≡ some t')
        × Shows V t'.writer (
            type_bytes t.writer.color_code
              (map shown_byte (keys_text V K (kept 128 batches) t.keys))
              d)
        × IsWaiting A W 128 id t'.statics
  unfolding typing print_keypresses
  typing_lem fuel id batches t d enough fresh shows =
      let s0 : Statics A W = stream_new A W t.statics in
      let (s1, e1, waits) =
        poll_keypresses_lem V K A W fuel 128 id [] (record t { statics = s0 }) t.keys t.writer
          (stream_new-Holds t.statics fresh) (omega arith) refl in
      let t1 : Typing V K A W = record t { statics = s1 } in
      let (t', e2, printed, waits') =
        type_batches-Printed fuel 128 id batches t1 d (omega arith) enough waits shows in
      let (keys', w', e3, shows') =
        print_keypresses_lem V K (kept 128 batches) t.keys t.writer d shows in
      let same : w' ≡ t'.writer =
        ap (λ o. elim o [ none ↦ w' | some r ↦ r.1 ]) (sym e3 ∙ printed) in
      (
        t',
        rw e1 e2,
        subst
            (λ w. Shows V w (
              type_bytes t.writer.color_code
                (map shown_byte (keys_text V K (kept 128 batches) t.keys)) d))
            same shows',
        waits',
      )
