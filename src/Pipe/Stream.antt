-- ===== src/Pipe/Stream.antt =====
-- The packets of a sequence of messages, one after the other.
use spiped.Base.{◌≤◌, ◌<◌, ◌≡◌, refl, ap, sym, ◌∙◌, List, [], ◌∷◌, ◌++◌, length, append_assoc}
use spiped.Primitives.{Bytes, Primitives}
use spiped.Crypt.Keys.{ProtoKeys}
use spiped.Crypt.Packet.{next_pnum}
use spiped.Crypt.Packet.Shape.{packet}

-- Messages of 1 to 1024 bytes.
abbrev pub AreMessages : List Bytes → Type 0
AreMessages [] = Unit
AreMessages (m ∷ ms) = ((0 < length m) × (length m ≤ 1024)) × AreMessages ms

-- All the bytes of the messages.
abbrev pub bytes_of : List Bytes → Bytes
bytes_of [] = []
bytes_of (m ∷ ms) = m ++ bytes_of ms

pub bytes_of-append : (ms ns : List Bytes) → bytes_of (ms ++ ns) ≡ bytes_of ms ++ bytes_of ns
bytes_of-append [] ns = refl
bytes_of-append (m ∷ ms) ns =
    ap (λ (l : Bytes). m ++ l) (bytes_of-append ms ns)
    ∙ sym (append_assoc m (bytes_of ms) (bytes_of ns))

pub AreMessages-append :
    (ms ns : List Bytes) → AreMessages ms → AreMessages ns → AreMessages (ms ++ ns)
AreMessages-append [] ns h k = k
AreMessages-append (m ∷ ms) ns h k = (h.0, AreMessages-append ms ns h.1 k)

module _ (p : Primitives) where
  -- The keys after some messages, and the packets of them.
  abbrev pub advance : ProtoKeys p → List Bytes → ProtoKeys p
  advance k [] = k
  advance k (m ∷ ms) = advance (next_pnum p k) ms

  abbrev pub packets : ProtoKeys p → List Bytes → Bytes
  packets k [] = []
  packets k (m ∷ ms) = packet p k m ++ packets (next_pnum p k) ms

  pub advance-append :
      (k : ProtoKeys p) (ms ns : List Bytes) → advance k (ms ++ ns) ≡ advance (advance k ms) ns
  advance-append k [] ns = refl
  advance-append k (m ∷ ms) ns = advance-append (next_pnum p k) ms ns

  pub packets-append :
      (k : ProtoKeys p) (ms ns : List Bytes)
      → packets k (ms ++ ns) ≡ packets k ms ++ packets (advance k ms) ns
  packets-append k [] ns = refl
  packets-append k (m ∷ ms) ns =
      ap (λ (l : Bytes). packet p k m ++ l) (packets-append (next_pnum p k) ms ns)
      ∙ sym (
          append_assoc (packet p k m) (packets (next_pnum p k) ms)
            (packets (advance (next_pnum p k) ms) ns))
