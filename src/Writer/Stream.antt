-- ===== src/Writer/Stream.antt =====
-- What a reader of the descriptor sees: the bytes written, followed by those in the buffer.
use graphserv.Prelude.{
  ℕ, ◌+◌, ◌≡◌, ◌≤◌, ◌↔◌, refl, sym, ap, ◌∙◌, true, Bool-cases, inl, inr, Text, List, [], ◌∷◌, ◌++◌,
  concat, take, drop, length, length-append, length-take, take-whole, take-append-drop,
  append_assoc, append-nil, arith, ==_iff, ◌==◌,
}
use graphserv.External.{Env, Written, wrote, would_block, failed}
use graphserv.Writer.{
  NonblockWriter, Attempt, write_string, flush_loop, flush, write, writef, write_all,
  write_buffer_empty, get_writebuffer_size, total_length,
}

-- The bytes for the peer, in order.
unfoldable pub stream : NonblockWriter → Text
stream w = w.written ++ concat w.buffer

pub concat-append : (xs ys : List Text) → concat (xs ++ ys) ≡ concat xs ++ concat ys
concat-append [] ys = refl
concat-append (x ∷ xs) ys = simp (concat-append xs ys, append_assoc)

module _ (env : Env) where
  write_string-taken :
      (w : NonblockWriter) (s : Text)
      → (write_string env w s).writer.written ++ drop (write_string env w s).size s ≡ w.written ++ s
  unfolding write_string
  write_string-taken w s = go (env.write_returns w.fd w.calls s) refl
    where
      go :
          (r : Written)
          → env.write_returns w.fd w.calls s ≡ r
          → (write_string env w s).writer.written ++ drop (write_string env w s).size s
            ≡ w.written ++ s
      go (wrote n) e =
          rw (e, write_string)
            (append_assoc w.written (take n s) (drop n s)
              ∙ ap (◌++◌ w.written) (take-append-drop n s))
      go would_block e = rw (e, write_string)
      go failed e = rw (e, write_string)

  drop_all : (n : ℕ) (s : Text) → n ≡ length s → drop n s ≡ []
  drop_all n s e = rw e (drop-length s)
    where
      drop-length : (t : Text) → drop (length t) t ≡ []
      drop-length [] = refl
      drop-length (x ∷ xs) = drop-length xs

  flush_loop-stream :
      (buffer : List Text) (w : NonblockWriter)
      → stream (flush_loop env buffer w).writer ≡ w.written ++ concat buffer
  unfolding stream flush_loop
  flush_loop-stream [] w = refl
  flush_loop-stream (s ∷ rest) w =
      let a : Attempt = write_string env w s in
      elim (Bool-cases (a.size == length s)) [
        | inl all ↦ rw all (
            flush_loop-stream rest a.writer
            ∙ ap (λ t. t ++ concat rest) (taken_whole all)
            ∙ append_assoc w.written s (concat rest))
        | inr part ↦ rw part (
            sym (append_assoc a.writer.written (drop a.size s) (concat rest))
            ∙ ap (λ t. t ++ concat rest) (write_string-taken w s)
            ∙ append_assoc w.written s (concat rest))
      ]
    where
      taken_whole :
          ((write_string env w s).size == length s) ≡ true
          → (write_string env w s).writer.written ≡ w.written ++ s
      taken_whole all =
          sym (append-nil _)
          ∙ ap (◌++◌ (write_string env w s).writer.written)
              (sym (drop_all (write_string env w s).size s ((==_iff _ _).0 all)))
          ∙ write_string-taken w s

  -- Flushing moves bytes from the buffer to the descriptor, and neither loses, repeats nor
  -- reorders one, whatever write(2) answers.
  pub flush-stream : (w : NonblockWriter) → stream (flush env w).writer ≡ stream w
  unfolding flush stream
  flush-stream w = flush_loop-stream w.buffer w

  -- A write appends its string to what the peer is to receive.
  pub write-stream : (s : Text) (w : NonblockWriter) → stream (write env s w).writer ≡ stream w ++ s
  unfolding write stream flush
  write-stream s w =
      flush_loop-stream (w.buffer ++ s ∷ []) (record w { buffer = w.buffer ++ s ∷ [] })
      ∙ ap (◌++◌ w.written) (concat-append w.buffer (s ∷ []))
      ∙ simp (append-nil, append_assoc)

  -- A formatted write adds at most 2047 bytes to what the peer is to receive, the first ones of the
  -- string; it adds the whole string exactly if that has no more than 2047 bytes.
  pub writef-bound :
      (s : Text) (w : NonblockWriter)
      → (length (stream (writef env s w).writer) ≤ length (stream w) + 2047)
        × ((stream (writef env s w).writer ≡ stream w ++ s) ↔ (length s ≤ 2047))
  unfolding writef
  writef-bound s w = rw (write-stream (take 2047 s) w) (
    omega (arith, length-append (stream w) (take 2047 s), length-take 2047 s),
    (
      λ e.
          let same : length (stream w ++ take 2047 s) ≡ length (stream w ++ s) = ap length e in
          omega (
            arith,
            same,
            length-append (stream w) (take 2047 s),
            length-append (stream w) s,
            length-take 2047 s,
          ),
      λ h. ap (◌++◌ (stream w)) (take-whole 2047 s h),
    ),
  )

  -- After any sequence of writes the bytes taken by the descriptor, followed by the buffer, are the
  -- earlier ones followed by the strings written, in order.
  pub write_all-stream :
      (ss : List Text) (w : NonblockWriter) → stream (write_all env ss w) ≡ stream w ++ concat ss
  unfolding write_all
  write_all-stream [] w = sym (append-nil _)
  write_all-stream (s ∷ rest) w =
      write_all-stream rest (write env s w).writer
      ∙ ap (λ t. t ++ concat rest) (write-stream s w)
      ∙ append_assoc (stream w) s (concat rest)

  flush_loop-emptied :
      (buffer : List Text) (w : NonblockWriter)
      → (flush_loop env buffer w).emptied ≡ write_buffer_empty (flush_loop env buffer w).writer
  unfolding flush_loop write_buffer_empty
  flush_loop-emptied [] w = refl
  flush_loop-emptied (s ∷ rest) w =
      let a : Attempt = write_string env w s in
      elim (Bool-cases (a.size == length s)) [
        | inl all ↦ rw all (flush_loop-emptied rest a.writer)
        | inr part ↦ rw part
      ]

  -- `flush` returns true exactly when it leaves the buffer empty.
  pub flush-emptied :
      (w : NonblockWriter) → (flush env w).emptied ≡ write_buffer_empty (flush env w).writer
  unfolding flush
  flush-emptied w = flush_loop-emptied w.buffer w

total_length-concat : (ss : List Text) → total_length ss ≡ length (concat ss)
unfolding total_length
total_length-concat [] = refl
total_length-concat (s ∷ rest) =
    omega (arith, total_length-concat rest, length-append s (concat rest))

-- The size of the write buffer is the number of bytes that are still to be written.
pub get_writebuffer_size-stream :
    (w : NonblockWriter) → length (stream w) ≡ length w.written + get_writebuffer_size w
unfolding stream get_writebuffer_size
get_writebuffer_size-stream w =
    omega (arith, total_length-concat w.buffer, length-append w.written (concat w.buffer))
