-- ===== src/Net/Connection/Delivery.antt =====
-- No byte is lost, doubled or moved between `send` and the socket.
use mathlib.Core.List.{append_assoc, append-nil}
use pp_d_scache.Base.{
  ℕ, ◌-◌, ◌≤◌, ◌≡◌, ◌≢◌, refl, sym, ap, ◌∙◌, false, inl, inr, ◌⊎◌, Bool-cases, not, ◌&&◌, ◌||◌, [],
  ◌∷◌, ◌++◌, length, take, drop, drop_of_length-le, take-append-drop, leb, le→leb, leb→le, arith,
  ok,
}
use pp_d_scache.Base.Text.{Str}
use pp_d_scache.Net.Buffer.{Buffer, content, readable_bytes}
use pp_d_scache.Net.Buffer.Content.{IsValid, length-content}
use pp_d_scache.Net.Buffer.Operations.{append-Holds, retrieve-Holds}
use pp_d_scache.Net.Connection.{
  TcpConnection, Wrote, wrote, again, reset, is_disconnected, write_direct, queued, queue_rest,
  send_in_loop, handle_write, write_done, shutdown_in_loop, is_disconnecting,
}

-- The bytes that the socket accepted, and behind them those that wait.
abbrev pub stream : TcpConnection → Str
stream c = c.sent ++ content c.output

-- The output buffer is valid, and the loop watches for room in the socket while bytes wait.
pub record IsSane (c : TcpConnection) : Type 0 where
  pub valid : IsValid c.output
  pub watched : c.channel.writing ≡ false → readable_bytes c.output ≡ 0

-- The contract of `sockets::write` of `len` bytes, without the errors that end the connection.
abbrev pub Takes : Wrote → ℕ → Type 0
Takes (wrote n) len = n ≤ len
Takes again len = Unit {0}
Takes reset len = ⊥

queued-writing :
    (n : ℕ) (output : Buffer) (c : TcpConnection) → (queued n output c).channel.writing ≢ false
queued-writing n output c e = elim (Bool-cases c.channel.writing) [
  | inl on ↦ ground arith
  | inr off ↦ ground arith
]

-- What is not written is queued.
queue_rest-stream :
    (n : ℕ) (s : Str) (c : TcpConnection)
    → IsSane c
    → n ≤ length s
    → (c' : TcpConnection) × (queue_rest n false s c ≡ ok c')
      × IsSane c'
      × (c'.sent ≡ c.sent)
      × (content c'.output ≡ content c.output ++ drop n s)
unfolding queue_rest
queue_rest-stream n s c v h = elim (Bool-cases (leb (length s - n) 0)) [
  | inl all ↦ (
    c,
    rw (le→leb n (length s) h, all) refl,
    v,
    refl,
    sym (append-nil (content c.output))
        ∙ ap (λ t. content c.output ++ t)
            (sym (drop_of_length-le n s (omega (arith, leb→le _ _ all)))),
  )
  | inr rest ↦
      let (output, done, r) = append-Holds (drop n s) c.output v.valid in
      (
        queued (length s - n) output c,
        rw (le→leb n (length s) h, rest, done) refl,
        record {
          valid = r.valid;
          watched = λ e. absurd (queued-writing (length s - n) output c e);
        },
        refl,
        r.holds,
      )
]

write_direct-stream :
    (w : Wrote) (s : Str) (c : TcpConnection)
    → Takes w (length s)
    → let r = write_direct w s c in
      (r.0 ≤ length s)
      × (r.1.0 ≡ false)
      × (r.1.1.sent ≡ c.sent ++ take r.0 s)
      × (r.1.1.output ≡ c.output)
      × (r.1.1.channel ≡ c.channel)
unfolding write_direct
write_direct-stream (wrote n) s c h = (h, refl, refl, refl, refl)
write_direct-stream again s c h = (omega arith, refl, sym (append-nil c.sent), refl, refl)
write_direct-stream reset s c h = absurd h

empty_content : (b : Buffer) → IsValid b → readable_bytes b ≡ 0 → content b ≡ []
empty_content b v h = nil (content b) (length-content b v ∙ h)
  where
    nil : (l : Str) → length l ≡ 0 → l ≡ []
    nil [] e = refl
    nil (x ∷ l) e = absurd (omega arith)

-- A send on a sane connection that is not disconnected returns, and adds its bytes to the stream: none
-- is lost, and none overtakes another, however much the socket takes, unless it says that the
-- connection is broken.
pub send_in_loop-stream :
    (w : Wrote) (s : Str) (c : TcpConnection)
    → IsSane c
    → is_disconnected c.state ≡ false
    → Takes w (length s)
    → (c' : TcpConnection) × (send_in_loop w s c ≡ ok c') × IsSane c' × (stream c' ≡ stream c ++ s)
unfolding send_in_loop
send_in_loop-stream w s c v live h =
    elim (Bool-cases (not c.channel.writing && leb (readable_bytes c.output) 0)) [
      | inl direct ↦
          let (few, fine, told, same, still) = write_direct-stream w s c h in
          let d = (write_direct w s c).1.1 in
          let n = (write_direct w s c).0 in
          let (c', done, u, kept, queue) =
            queue_rest-stream n s d
              (record { valid = rw same v.valid; watched = rw (same, still) v.watched }) few in
          (
            c',
            rw (live, direct, fine, done) refl,
            u,
            ap (λ t. t ++ content c'.output) (kept ∙ told)
                ∙ ap (λ t. (c.sent ++ take n s) ++ t)
                    (queue
                      ∙ ap (λ b. content b ++ drop n s) same
                      ∙ ap (λ t. t ++ drop n s) (empty_content c.output v.valid (ground arith)))
                ∙ append_assoc c.sent (take n s) (drop n s)
                ∙ ap (λ t. c.sent ++ t) (take-append-drop n s)
                ∙ ap (λ t. t ++ s)
                    (sym (append-nil c.sent)
                      ∙ ap (λ t. c.sent ++ t)
                          (sym (empty_content c.output v.valid (ground arith)))),
          )
      | inr waiting ↦
          let (c', done, u, kept, queue) = queue_rest-stream 0 s c v (omega arith) in
          (
            c',
            rw (live, waiting) done,
            u,
            ap (λ t. t ++ content c'.output) kept
                ∙ ap (λ t. c.sent ++ t) queue
                ∙ sym (append_assoc c.sent (content c.output) s),
          )
    ]

write_done-kept :
    (c : TcpConnection) → ((write_done c).output ≡ c.output) × ((write_done c).sent ≡ c.sent)
unfolding write_done shutdown_in_loop
write_done-kept c = elim (Bool-cases (is_disconnecting c.state)) [
  | inl closing ↦ rw closing (refl, refl)
  | inr going ↦ rw going (refl, refl)
]

-- When the socket of a sane connection has room, the bytes that it takes leave the output buffer in their order: the stream
-- stays as it is, and there is no effect, such as the end of the socket's writing, before the last
-- byte was written.
pub handle_write-stream :
    (w : Wrote) (c : TcpConnection)
    → IsSane c
    → Takes w (readable_bytes c.output)
    → (c' : TcpConnection) × (handle_write w c ≡ ok c')
      × IsSane c'
      × (stream c' ≡ stream c)
      × ((c'.effects ≡ c.effects) ⊎ (readable_bytes c'.output ≡ 0))
unfolding handle_write
handle_write-stream again c v h = (c, refl, v, refl, inl refl)
handle_write-stream reset c v h = absurd h
handle_write-stream (wrote n) c v h = elim (Bool-cases (not c.channel.writing || leb n 0)) [
  | inl idle ↦ (c, rw idle refl, v, refl, inl refl)
  | inr busy ↦
      let (output, done, r) = retrieve-Holds n c.output v.valid h in
      let d : TcpConnection = record c {
        output = output;
        sent = c.sent ++ take n (content c.output);
      } in
      let same : stream d ≡ stream c =
        ap (λ t. (c.sent ++ take n (content c.output)) ++ t) r.holds
        ∙ append_assoc c.sent (take n (content c.output)) (drop n (content c.output))
        ∙ ap (λ t. c.sent ++ t) (take-append-drop n (content c.output)) in
      elim (Bool-cases (leb (readable_bytes output) 0)) [
        | inl last ↦
            let (kept, told) = write_done-kept d in
            let drained : readable_bytes (write_done d).output ≡ 0 =
              ap readable_bytes kept ∙ omega (arith, leb→le (readable_bytes output) 0 last) in
            (
              write_done d,
              rw (busy, done, last) refl,
              record { valid = rw kept r.valid; watched = λ e. drained },
              rw (kept, told) same,
              inr drained,
            )
        | inr more ↦ (
          d,
          rw (busy, done, more) refl,
          record { valid = r.valid; watched = λ e. absurd (ground arith) },
          same,
          inl refl,
        )
      ]
]
