-- ===== src/Sample/Wire.antt =====
-- One message from the encrypting pipe to the decrypting one.
use spiped.Base.{
  ◌≡◌, refl, Bool, true, false, some, [], ◌∷◌, ◌++◌, length, replicate, arith, take, drop, pos, ap,
}
use spiped.Primitives.{Bytes}
use spiped.Sample.{toy, toy-IsDocumented, sum, checksum, flip, verify_bytes, enc32, dec32}
use spiped.Crypt.Keys.{ProtoKeys}
use spiped.Crypt.Packet.{proto_crypt_enc, proto_crypt_dec}
use spiped.Pipe.{round}
use spiped.Pipe.Loop.{process, minread_of, full_buflen_of}
use spiped.Pipe.Callbacks.{PipeCookie, proto_pipe, callback_pipe_read, callback_pipe_write}
use spiped.Pipe.Callbacks.Data.{all_ok}
use spiped.Pipe.Callbacks.Link.{
  Link, arrive, read_sender, written_sender, carry, read_receiver, written_receiver, Reach, here,
  next,
}
use spiped.Pipe.Callbacks.Link.Liveness.{can_deliver}
use spiped.Pipe.Callbacks.Link.Delivery.{link_of, delivers_prefix, delivers_all}

abbrev some_keys : ProtoKeys toy
some_keys = record { k_aes = 7 ∷ []; ctx_init = 9 ∷ []; pnum = 3 }

abbrev new_pipe : Bool → PipeCookie toy
new_pipe decr = record {
  decr = decr;
  k = some_keys;
  outbuf = [];
  buffered = [];
  waiting = true;
  writing = false;
  wlen = 0;
  minread = minread_of decr;
  full_buflen = full_buflen_of decr;
  status = pos 1;
}

made : (decr : Bool) → proto_pipe toy true true true decr some_keys (pos 1) ≡ some (new_pipe decr)
unfolding proto_pipe
made decr = refl

abbrev link0 : Link toy
link0 = link_of toy (new_pipe false) (new_pipe true)

abbrev link1 : Link toy
link1 = record link0 {
  sender = record (new_pipe false) { buffered = 1 ∷ 2 ∷ 3 ∷ [] };
  input = 1 ∷ 2 ∷ 3 ∷ [];
}

reach1 : Reach toy link0 link1
reach1 = next here (arrive (1 ∷ 2 ∷ 3 ∷ []))

abbrev link2 : Link toy
link2 = record link1 { sender = (callback_pipe_read toy all_ok (pos 0) link1.sender).0 }

reach2 : Reach toy link0 link2
reach2 = next reach1 (read_sender refl (omega arith))

abbrev link3 : Link toy
link3 = record link2 {
  sender = (callback_pipe_write toy all_ok (pos link2.sender.wlen) link2.sender).0;
  wire = link2.wire ++ link2.sender.outbuf;
}

is_writing : link2.sender.writing ≡ true
unfolding callback_pipe_read process round proto_crypt_enc take drop replicate sum checksum flip
    verify_bytes enc32
is_writing = refl

reach3 : Reach toy link0 link3
reach3 = next reach2 (written_sender is_writing)

abbrev link4 : Link toy
link4 = record link3 {
  wire = drop 1060 link3.wire;
  receiver = record (link3.receiver) { buffered = link3.receiver.buffered ++ take 1060 link3.wire };
}

reach4 : Reach toy link0 link4
reach4 = next reach3 (carry 1060)

abbrev link5 : Link toy
link5 = record link4 { receiver = (callback_pipe_read toy all_ok (pos 0) link4.receiver).0 }

packet_length : length link4.receiver.buffered ≡ 1060
unfolding callback_pipe_read process round proto_crypt_enc take drop replicate sum checksum flip
    verify_bytes enc32
packet_length = refl

reach5 : Reach toy link0 link5
reach5 = next reach4 (read_receiver refl (omega (arith, packet_length)))

abbrev link6 : Link toy
link6 = record link5 {
  receiver = (callback_pipe_write toy all_ok (pos link5.receiver.wlen) link5.receiver).0;
  output = link5.output ++ link5.receiver.outbuf;
}

is_delivering : link5.receiver.writing ≡ true
unfolding callback_pipe_read callback_pipe_write process round proto_crypt_enc proto_crypt_dec take
    drop replicate sum checksum flip verify_bytes enc32 dec32
is_delivering = refl

reach6 : Reach toy link0 link6
reach6 = next reach5 (written_receiver is_delivering)

sender_waits : link6.sender.waiting ≡ true
unfolding callback_pipe_read callback_pipe_write process round proto_crypt_enc proto_crypt_dec take
    drop replicate sum checksum flip verify_bytes enc32 dec32
sender_waits = refl

receiver_waits : link6.receiver.waiting ≡ true
unfolding callback_pipe_read callback_pipe_write process round proto_crypt_enc proto_crypt_dec take
    drop replicate sum checksum flip verify_bytes enc32 dec32
receiver_waits = refl

wire_empty : link6.wire ≡ []
unfolding callback_pipe_read callback_pipe_write process round proto_crypt_enc proto_crypt_dec take
    drop replicate sum checksum flip verify_bytes enc32 dec32
wire_empty = refl

sender_empty : link6.sender.buffered ≡ []
unfolding callback_pipe_read callback_pipe_write process round proto_crypt_enc proto_crypt_dec take
    drop replicate sum checksum flip verify_bytes enc32 dec32
sender_empty = refl

receiver_empty : link6.receiver.buffered ≡ []
unfolding callback_pipe_read callback_pipe_write process round proto_crypt_enc proto_crypt_dec take
    drop replicate sum checksum flip verify_bytes enc32 dec32
receiver_empty = refl

delivers_prefix_example :
    (link5.sender.status ≡ pos 1)
    × (link5.receiver.status ≡ pos 1)
    × ((rest : Bytes) × (link5.input ≡ link5.output ++ rest))
delivers_prefix_example =
    delivers_prefix toy toy-IsDocumented some_keys (made false) (made true) reach5

delivers_all_example : link6.output ≡ link6.input
delivers_all_example =
    delivers_all toy toy-IsDocumented some_keys (made false) (made true) reach6 sender_waits
      receiver_waits wire_empty sender_empty (omega (arith, ap length receiver_empty))

can_deliver_example :
    (m : Link toy) × Reach toy link2 m × (m.input ≡ link2.input) × (m.output ≡ link2.input)
can_deliver_example = can_deliver toy toy-IsDocumented some_keys (made false) (made true) reach2
