-- ===== src/Sample/Eof.antt =====
-- Each theorem applied at concrete inputs: a packet and a part of another, and the end.
use spiped.Base.{
  ◌≡◌, refl, true, false, some, [], ◌∷◌, ◌++◌, length, replicate, take, drop, arith, pos, minus_one,
}
use spiped.Primitives.{Bytes}
use spiped.Sample.{toy, toy-IsDocumented, sum, checksum, flip, verify_bytes, enc32, dec32}
use spiped.Crypt.Keys.{ProtoKeys}
use spiped.Crypt.Packet.{proto_crypt_enc, proto_crypt_dec}
use spiped.Pipe.{round}
use spiped.Pipe.Loop.{process, minread_of, full_buflen_of}
use spiped.Pipe.Stream.{bytes_of}
use spiped.Pipe.Callbacks.{PipeCookie, proto_pipe, callback_pipe_read, callback_pipe_write}
use spiped.Pipe.Callbacks.Data.{all_ok}
use spiped.EofCase.{
  Test, Run, here, next, arrive, read, written, AtEof, send, send_frames, send_tail, started,
  info_status, inbuf,
}
use spiped.EofCase.Ends.{eof_case}
use spiped.EofCase.Finishes.{eof_case_finishes}

abbrev some_keys : ProtoKeys toy
some_keys = record { k_aes = 7 ∷ []; ctx_init = 9 ∷ []; pnum = 0 }

abbrev new_pipe : PipeCookie toy
new_pipe = record {
  decr = true;
  k = some_keys;
  outbuf = [];
  buffered = [];
  waiting = true;
  writing = false;
  wlen = 0;
  minread = minread_of true;
  full_buflen = full_buflen_of true;
  status = pos 1;
}

made : proto_pipe toy true true true true some_keys (pos 1) ≡ some new_pipe
unfolding proto_pipe
made = refl

-- A packet of zeros: flipped bits, and the checksum.
abbrev frame : Bytes
frame = (replicate 1024 1 ++ (1 ∷ 1 ∷ 5 ∷ 1 ∷ [])) ++ replicate 32 17

sent : send toy 1 1 some_keys ≡ some ((frame ++ []) ++ 1 ∷ [])
unfolding send send_frames send_tail proto_crypt_enc take drop replicate sum checksum flip enc32
sent = refl

abbrev all_sent : Bytes
all_sent = (frame ++ []) ++ 1 ∷ []

abbrev test1 : Test toy
test1 = record {
  wire = drop 1061 all_sent;
  pipe = record new_pipe { buffered = take 1061 all_sent };
  output = [];
}

run1 : Run toy (started toy all_sent new_pipe) test1
run1 = next here (arrive 1061)

abbrev test2 : Test toy
test2 = record test1 { pipe = (callback_pipe_read toy all_ok (pos 0) test1.pipe).0 }

enough : length test1.pipe.buffered ≡ 1061
unfolding take replicate
enough = refl

run2 : Run toy (started toy all_sent new_pipe) test2
run2 = next run1 (read refl (omega (arith, enough)))

is_writing : test2.pipe.writing ≡ true
unfolding callback_pipe_read process round proto_crypt_dec take drop replicate sum checksum flip
    verify_bytes enc32 dec32
is_writing = refl

abbrev test3 : Test toy
test3 = record test2 {
  pipe = (callback_pipe_write toy all_ok (pos test2.pipe.wlen) test2.pipe).0;
  output = test2.output ++ test2.pipe.outbuf;
}

run3 : Run toy (started toy all_sent new_pipe) test3
run3 = next run2 (written is_writing)

at_eof : AtEof toy test3
unfolding callback_pipe_read callback_pipe_write process round proto_crypt_dec take drop replicate
    sum checksum flip verify_bytes enc32 dec32
at_eof = record { waits = refl; read_all = refl; too_little = omega arith }

eof_case_example : (info_status toy test3 ≡ minus_one) × (test3.output ≡ bytes_of (inbuf ∷ []))
eof_case_example = eof_case toy toy-IsDocumented some_keys 1 1 (omega arith) made sent run3 at_eof

eof_case_finishes_example : (u : Test toy) × Run toy test2 u × AtEof toy u
eof_case_finishes_example = eof_case_finishes toy toy-IsDocumented some_keys 1 1 made sent run2
