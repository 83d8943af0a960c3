-- ===== src/Wire/Reading.antt =====
-- typescript/src/gen: `decode` of what `encode` wrote.
use signet_clients.Prelude.{
  ℕ, zero, suc, ◌+◌, none, some, List, [], ◌++◌, append-nil, length, length-append, ◌≤◌, ltb-false,
  ◌≡◌, refl, sym, ap, ◌∙◌, arith,
}
use signet_clients.Runtime.{Outcome, resolved}
use signet_clients.Wire.{Protobuf, Fields, ok, from_bytes, decode_loop, decode_message}
use signet_clients.Wire.Laws.{reader_at}
use signet_clients.Wire.Feeding.{Gets, Writes}

loop_done :
    (lib : Protobuf) {M : Type 0} (f : Fields M) (fuel end p : ℕ) (m : M) (more : List ℕ)
    → end ≤ p
    → decode_loop lib f fuel end m (reader_at p more) ≡ ok m (reader_at p more)
unfolding decode_loop
loop_done lib f zero end p m more h = rw (ltb-false p end h) refl
loop_done lib f (suc fuel) end p m more h = rw (ltb-false p end h) refl

module _ {lib : Protobuf} {M : Type 0} (fields : ℕ → Fields M) (base : M) where
  -- `decode`, given the length of what was written, reads it whatever follows.
  pub decode_message-Gets :
      (levels : ℕ) {w : Outcome (List ℕ)} (bs : List ℕ) {m : M}
      → Writes lib (fields levels) w base m
      → w ≡ resolved bs
      → Gets (decode_message lib fields base (suc levels) (some (length bs))) bs m
  unfolding decode_message
  decode_message-Gets levels bs {m} writes h p more =
      let eaten =
        (writes.eats bs h).run (suc (length (bs ++ more))) p (p + length bs) more (omega arith)
          (omega (arith, length-append bs more)) in
      eaten.2
      ∙ loop_done lib (fields levels) eaten.0 (p + length bs) (p + length bs) m more (omega arith)

  -- Without a length it reads all that there is.
  pub decode_all :
      (levels : ℕ) {w : Outcome (List ℕ)} (bs : List ℕ) {m : M}
      → Writes lib (fields levels) w base m
      → w ≡ resolved bs
      → decode_message lib fields base (suc levels) none (from_bytes bs)
        ≡ ok m (reader_at (length bs) [])
  unfolding decode_message
  decode_all levels bs {m} writes h =
      let eaten =
        (writes.eats bs h).run (suc (length bs)) 0 (0 + length bs) [] (omega arith) (omega arith) in
      ap
        (λ xs.
          decode_loop lib (fields levels) (suc (length bs)) (0 + length bs) base (reader_at 0 xs))
        (sym (append-nil bs))
      ∙ (eaten.2
          ∙ (loop_done lib (fields levels) eaten.0 (0 + length bs) (0 + length bs) m []
                (omega arith)
              ∙ ap (λ n. ok m (reader_at n []))
                  (let e : 0 + length bs ≡ length bs = omega arith in e)))
