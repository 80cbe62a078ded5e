-- ===== src/Sample/Ends.antt =====
-- Each theorem applied at concrete inputs: the ends of a handshake, pipes and connections.
use spiped.Base.{
  ◌+◌, ◌<◌, ◌≤◌, ◌≡◌, ◌≢◌, ◌↔◌, ◌⊎◌, refl, ap, inl, true, false, none, some, [], ◌∷◌, ◌++◌, length,
  replicate, arith, get_or, pos, minus_one,
}
use spiped.Primitives.{Bytes, dh_one}
use spiped.Sample.{toy, toy-IsDocumented, element}
use spiped.Crypt.{ProtoSecret}
use spiped.Crypt.Keys.{ProtoKeys}
use spiped.Crypt.Exchange.{proto_crypt_dh_generate}
use spiped.Handshake.{HandshakeCookie, callback_dh_read, failed, upstream, nonce}
use spiped.Handshake.Steps.{Session, all_ok, new_handshake, mac_c, server_reads}
use spiped.Handshake.Agreement.{handshake_agrees, weak_client_dropped}
use spiped.Handshake.Progress.{
  handle, handle-GoesOn, handle-rank, handle_fails, GoesOn, rank, rank_after, nonce_read,
}
use spiped.Pipe.Loop.{process, full_buflen_of, minread_of}
use spiped.Pipe.Loop.Safety.{EndsWell, process-EndsWell}
use spiped.Pipe.Callbacks.{
  PipeCookie, Answers, callback_pipe_read, callback_pipe_write, enotconn, econnreset,
}
use spiped.Pipe.Callbacks.Branches.{
  Settles, callback_pipe_read-Settles, callback_pipe_write-Settles, callback_pipe_read_eof,
}

abbrev secret : ProtoSecret
secret = record { k = 1 ∷ 2 ∷ [] }

element_ne_one : element true ≢ dh_one
unfolding replicate
element_ne_one e = let z : 2 ≡ 1 = ap (λ (b : Bytes). get_or b 255 0) e in absurd (omega (arith, z))

handshake_agrees_example :
    Session toy secret (3 ∷ []) (4 ∷ []) true false false false true true (5 ∷ []) (6 ∷ [])
handshake_agrees_example =
    handshake_agrees toy toy-IsDocumented secret (3 ∷ []) (4 ∷ []) true false false false true true
      (5 ∷ []) (6 ∷ []) (λ r. element_ne_one) (λ r. element_ne_one)

abbrev weak_parameter : Bytes
weak_parameter = dh_one ++ toy.hmac_sha256_buf (mac_c toy secret (3 ∷ []) (4 ∷ [])) dh_one

weak_generated :
    proto_crypt_dh_generate toy none [] (mac_c toy secret (3 ∷ []) (4 ∷ [])) true
    ≡ some (weak_parameter, [])
unfolding proto_crypt_dh_generate
weak_generated = refl

weak_client_dropped_example :
    callback_dh_read toy
      (all_ok [])
      (pos 288)
      (record (server_reads toy secret (3 ∷ []) (4 ∷ []) false true) { yh_remote = weak_parameter })
    ≡ failed none none upstream
weak_client_dropped_example =
    weak_client_dropped toy toy-IsDocumented secret (3 ∷ []) (4 ∷ []) false (all_ok []) 288
      weak_generated

abbrev begun : HandshakeCookie
begun = new_handshake true false true secret (4 ∷ [])

handle-GoesOn_example :
    GoesOn toy (handle toy (all_ok (6 ∷ [])) (nonce_read (pos 32) (3 ∷ [])) begun)
handle-GoesOn_example =
    handle-GoesOn toy (all_ok (6 ∷ [])) (nonce_read (pos 32) (3 ∷ [])) begun (inl (refl, refl)) refl

handle-rank_example :
    (0 < rank toy begun)
    × (rank toy begun ≤ 4)
    × ((rank_after toy (handle toy (all_ok (6 ∷ [])) (nonce_read (pos 32) (3 ∷ [])) begun) ≡ 0)
        ⊎ (rank_after toy (handle toy (all_ok (6 ∷ [])) (nonce_read (pos 32) (3 ∷ [])) begun) + 1
            ≡ rank toy begun))
handle-rank_example =
    handle-rank toy (all_ok (6 ∷ [])) (nonce_read (pos 32) (3 ∷ [])) begun (inl (refl, refl)) refl

fails_when_short :
    handle toy (all_ok []) (nonce_read (pos 31) []) begun ≡ failed none (some nonce) upstream
fails_when_short = handle_fails toy (all_ok []) (nonce_read (pos 31) []) begun (inl refl)

abbrev some_keys : ProtoKeys toy
some_keys = record { k_aes = 7 ∷ []; ctx_init = 9 ∷ []; pnum = 3 }

process-EndsWell_example :
    EndsWell toy true 1060
      (process toy 1061 true (full_buflen_of true) some_keys (replicate 1060 1) 0 [])
unfolding replicate
process-EndsWell_example = process-EndsWell toy toy-IsDocumented true some_keys (replicate 1060 1)

abbrev calls : Answers
calls = record { shutdown = some enotconn; wait_ok = true; write_ok = false }

abbrev waiting_pipe : PipeCookie toy
waiting_pipe = record {
  decr = false;
  k = some_keys;
  outbuf = [];
  buffered = 1 ∷ 2 ∷ [];
  waiting = true;
  writing = false;
  wlen = 0;
  minread = minread_of false;
  full_buflen = full_buflen_of false;
  status = pos 1;
}

callback_pipe_read-Settles_example :
    Settles toy (pos 1) (callback_pipe_read toy calls (pos 0) waiting_pipe)
callback_pipe_read-Settles_example =
    callback_pipe_read-Settles toy toy-IsDocumented calls (pos 0) waiting_pipe (refl, refl) refl
      refl

pipe_writes : Settles toy (pos 1) (
    callback_pipe_write toy calls
      (pos 5)
      (record waiting_pipe { waiting = false; writing = true; wlen = 6 }))
pipe_writes =
    callback_pipe_write-Settles toy toy-IsDocumented calls (pos 5)
      (record waiting_pipe { waiting = false; writing = true; wlen = 6 }) (refl, refl) refl refl

clean_eof :
    let c' = (callback_pipe_read toy calls (pos 1) waiting_pipe).0 in
    ((c'.status ≡ pos 0) ↔ (
      ((false ≡ false) ⊎ (length (waiting_pipe.buffered) ≡ 0))
      × ((calls.shutdown ≡ none)
          ⊎ ((calls.shutdown ≡ some enotconn) ⊎ (calls.shutdown ≡ some econnreset)))))
    × ((c'.status ≡ pos 0) ⊎ (c'.status ≡ minus_one))
clean_eof = callback_pipe_read_eof toy calls waiting_pipe
