-- ===== src/Handshake/Progress.antt =====
-- lib/proto/proto_handshake.c: one end, callback by callback, under any network.
use spiped.Base.{
  ℕ, ◌≡◌, ◌⊎◌, Bool, true, false, Option, none, some, ℤ, arith, lt_len, ◌<◌, ◌≤◌, ◌+◌,
}
use spiped.Primitives.{Bytes, Primitives}
use spiped.Crypt.Exchange.{proto_crypt_dh_validate}
use spiped.Handshake.{
  Transfer, nonce, dh, HandshakeCookie, Answers, upstream, Outcome, continues, failed, finished,
  aborted, callback_nonce_write, callback_nonce_read, callback_dh_read, callback_dh_write,
}

-- Waiting for a nonce to be sent, or read, or both; or for one parameter.
abbrev pub IsWaiting : HandshakeCookie → Type 0
IsWaiting h =
    ((h.reading ≡ some nonce) × (h.writing ≡ some nonce))
    ⊎ (((h.reading ≡ some nonce) × (h.writing ≡ none))
        ⊎ (((h.reading ≡ none) × (h.writing ≡ some nonce))
            ⊎ (((h.reading ≡ some dh) × (h.writing ≡ none))
                ⊎ ((h.reading ≡ none) × (h.writing ≡ some dh)))))

-- The completion of a pending transfer, with the length that is reported and, for a read, what is
-- then in the buffer.
pub data Event : Type 0 where
  nonce_written : ℤ → Event
  nonce_read : ℤ → Bytes → Event
  dh_written : ℤ → Event
  dh_read : ℤ → Bytes → Event

-- An event happens when its transfer is pending.
abbrev pub Enabled : Event → HandshakeCookie → Type 0
Enabled (nonce_written len) h = h.writing ≡ some nonce
Enabled (nonce_read len b) h = h.reading ≡ some nonce
Enabled (dh_written len) h = h.writing ≡ some dh
Enabled (dh_read len b) h = h.reading ≡ some dh

module _ (p : Primitives) where
  unfoldable pub handle : Answers → Event → HandshakeCookie → Outcome p
  handle a (nonce_written len) h = callback_nonce_write p a len h
  handle a (nonce_read len b) h = callback_nonce_read p a len (record h { nonce_remote = b })
  handle a (dh_written len) h = callback_dh_write p a len h
  handle a (dh_read len b) h = callback_dh_read p a len (record h { yh_remote = b })

  -- The handshake goes on with a transfer pending, or it is over: no assertion has failed, and
  -- keys are handed on only when nothing was pending. A failure may have cancelled one transfer.
  abbrev pub GoesOn : Outcome p → Type 0
  GoesOn (continues h) = IsWaiting h
  GoesOn (failed r w rc) = (r ≡ none) ⊎ (w ≡ none)
  GoesOn (finished c s) = Unit
  GoesOn aborted = ⊥

  -- From a cookie that waits, on every event that can happen, with every length and whatever the
  -- calls report, the end waits again with a transfer pending, or is over; the assertions of
  -- `handshakedone` hold.
  pub handle-GoesOn :
      (a : Answers) (e : Event) (h : HandshakeCookie)
      → IsWaiting h
      → Enabled e h
      → GoesOn (handle a e h)
  unfolding handle callback_nonce_write callback_nonce_read callback_dh_read callback_dh_write
  handle-GoesOn a (nonce_written len) h w e = ground arith
  handle-GoesOn a (nonce_read len b) h w e = ground arith
  handle-GoesOn a (dh_written len) h w e = ground arith
  handle-GoesOn a (dh_read len b) h w e = ground arith

  -- How many events a waiting handshake has before it: the client sends its parameter and then
  -- reads the server's, and the server the other way round.
  abbrev pub rank_of : Bool → Option Transfer → Option Transfer → ℕ
  rank_of decr (some nonce) (some nonce) = 4
  rank_of decr (some nonce) none = 3
  rank_of decr none (some nonce) = 3
  rank_of true (some dh) none = 2
  rank_of false none (some dh) = 2
  rank_of true none (some dh) = 1
  rank_of false (some dh) none = 1
  rank_of decr r w = 0

  abbrev pub rank : HandshakeCookie → ℕ
  rank h = rank_of h.decr h.reading h.writing

  abbrev pub rank_after : Outcome p → ℕ
  rank_after (continues h) = rank h
  rank_after (failed r w rc) = 0
  rank_after (finished c s) = 0
  rank_after aborted = 0

  -- Every event brings the end of the handshake nearer by one, or is the end: there are at most
  -- four events in all.
  pub handle-rank :
      (a : Answers) (e : Event) (h : HandshakeCookie)
      → IsWaiting h
      → Enabled e h
      → (0 < rank h)
        × (rank h ≤ 4)
        × ((rank_after (handle a e h) ≡ 0) ⊎ (rank_after (handle a e h) + 1 ≡ rank h))
  unfolding handle callback_nonce_write callback_nonce_read callback_dh_read callback_dh_write
  handle-rank a (nonce_written len) h w e = ground arith
  handle-rank a (nonce_read len b) h w e = ground arith
  handle-rank a (dh_written len) h w e = ground arith
  handle-rank a (dh_read len b) h w e = ground arith

  -- A transfer that ended early.
  abbrev pub IsShort : Event → Type 0
  IsShort (nonce_written len) = lt_len len 32 ≡ true
  IsShort (nonce_read len b) = lt_len len 32 ≡ true
  IsShort (dh_written len) = lt_len len 288 ≡ true
  IsShort (dh_read len b) = lt_len len 288 ≡ true

  -- The transfer that an event leaves pending.
  abbrev pub other : Event → HandshakeCookie → Option Transfer × Option Transfer
  other (nonce_written len) h = (h.reading, none)
  other (nonce_read len b) h = (none, h.writing)
  other (dh_written len) h = (h.reading, none)
  other (dh_read len b) h = (none, h.writing)

  -- An error or a short transfer, in every state, ends the handshake without keys, and cancels
  -- what else was pending; so does a parameter that is refused, by MAC, size or forward secrecy.
  pub handle_fails :
      (a : Answers) (e : Event) (h : HandshakeCookie)
      → IsShort e
        ⊎ ((len : ℤ) × (b : Bytes) × (e ≡ dh_read len b)
            × (proto_crypt_dh_validate p b h.dhmac_remote h.requirepfs ≡ true))
      → handle a e h ≡ failed (other e h).0 (other e h).1 upstream
  unfolding handle callback_nonce_write callback_nonce_read callback_dh_read callback_dh_write
  handle_fails a (nonce_written len) h why = ground arith
  handle_fails a (nonce_read len b) h why = ground arith
  handle_fails a (dh_written len) h why = ground arith
  handle_fails a (dh_read len b) h why = ground arith
