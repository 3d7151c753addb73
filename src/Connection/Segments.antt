-- ===== src/Connection/Segments.antt =====
-- vgseer/connection.c: what passing, eating and holding over a segment does to the bytes that will
-- be written.
use mathlib.Core.List.{append_assoc, append-nil}
use viewglob.Base.{
  ℕ, ◌+◌, ◌-◌, ◌≤◌, ◌<◌, ◌≡◌, sym, ap, ◌∙◌, Bool, true, false, ◌++◌, none, Bytes, c_string, arith,
  ◌&&◌, ltb, length, take, drop, if◌then◌else◌, length-append, length-take, length-drop,
  take-append_at, take-take, drop-take, drop-append_le, drop_end, take-add,
}
use viewglob.Connection.{Connection, size, memmove, eat_segment, prepend_holdover, create_holdover}

-- The bytes that are there.
abbrev pub content : Connection → Bytes
content b = take b.filled b.buf

-- The segment, and the byte behind it, lie in the filled part of the buffer.
pub record IsOpen (b : Connection) : Type 0 where
  pub ahead : b.pos + b.seglen < b.filled
  pub fits : b.filled ≤ size b

moved :
    (p n f : ℕ) (a : Bytes)
    → p + n ≤ f
    → f ≤ length a
    → take (f - n) (memmove p (p + n) (f - (p + n)) a)
      ≡ take p a ++ take (f - (p + n)) (drop (p + n) a)
moved p n f a h k =
    ap (take (f - n)) (
      sym (
        append_assoc (take p a) (take (f - (p + n)) (drop (p + n) a)) (drop (p + (f - (p + n))) a)))
    ∙ take-append_at (f - n) (take p a ++ take (f - (p + n)) (drop (p + n) a)) _ (
        omega (
          arith,
          length-append (take p a) (take (f - (p + n)) (drop (p + n) a)),
          length-take p a,
          length-take (f - (p + n)) (drop (p + n) a),
          length-drop (p + n) a,
        ))

length-memmove :
    (p n f : ℕ) (a : Bytes)
    → p + n ≤ f
    → f ≤ length a
    → length (memmove p (p + n) (f - (p + n)) a) ≡ length a
length-memmove p n f a h k = omega (
  arith,
  length-append (take p a) (take (f - (p + n)) (drop (p + n) a) ++ drop (p + (f - (p + n))) a),
  length-append (take (f - (p + n)) (drop (p + n) a)) (drop (p + (f - (p + n))) a),
  length-take p a,
  length-take (f - (p + n)) (drop (p + n) a),
  length-drop (p + n) a,
  length-drop (p + (f - (p + n))) a,
)

-- While a segment and the byte behind it lie in the filled part of the buffer, eating takes the two
-- out of the content, keeps the order of the rest, and keeps the size of the buffer.
pub eat_segment-content :
    (b : Connection)
    → IsOpen b
    → (content (eat_segment b)
        ≡ take b.pos (content b) ++ drop (b.pos + (b.seglen + 1)) (content b))
      × (size (eat_segment b) ≡ size b)
unfolding eat_segment
eat_segment-content b h = (
  moved b.pos (b.seglen + 1) b.filled b.buf (omega (arith, h.ahead)) h.fits
      ∙ ground (
        arith,
        take-take b.pos b.filled b.buf (omega (arith, h.ahead)),
        drop-take (b.pos + (b.seglen + 1)) b.filled b.buf,
      ),
  length-memmove b.pos (b.seglen + 1) b.filled b.buf (omega (arith, h.ahead)) h.fits,
)

-- C functions see all of these bytes.
abbrev pub HasNoNul : Bytes → Type 0
HasNoNul s = c_string s ≡ s

-- What `connection_write` will write: the content less what was written before.
abbrev pub outgoing : Connection → Bytes
outgoing b = drop b.skip (content b)

abbrev raw_segment : Connection → Bytes
raw_segment b = take b.seglen (drop b.pos b.buf)

-- The connection at the next read, when the buffer that it shares with the other connection holds
-- `other`.
abbrev pub resumed : Bool → Connection → Bytes → Connection
resumed write_later b other =
    let held = create_holdover write_later b in prepend_holdover (record held { buf = other })

-- How the connection continues at the next read.
pub record ComesBack (write_later : Bool) (b : Connection) (other : Bytes) : Type 0 where
  pub back : content (resumed write_later b other) ≡ raw_segment b
  pub position : (resumed write_later b other).pos ≡ 0
  pub same_length : (resumed write_later b other).seglen ≡ b.seglen
  pub at_end : (resumed write_later b other).filled ≡ b.seglen
  pub written_once :
      outgoing (create_holdover write_later b) ++ outgoing (resumed write_later b other)
      ≡ outgoing b

segment_whole :
    (w : Bool) (b : Connection) (other : Bytes)
    → b.holdover ≡ none
    → HasNoNul (raw_segment b)
    → length (raw_segment b) ≡ b.seglen
    → ((resumed w b other).buf ≡ raw_segment b ++ drop (0 + length (raw_segment b)) other)
      × ((resumed w b other).filled ≡ b.seglen)
      × ((resumed w b other).pos ≡ 0)
      × ((resumed w b other).seglen ≡ b.seglen)
      × ((resumed w b other).skip ≡ (if w then 0 else b.seglen))
unfolding create_holdover prepend_holdover
segment_whole true b other h k n = ground arith
segment_whole false b other h k n = ground arith

created :
    (w : Bool) (b : Connection)
    → b.holdover ≡ none
    → outgoing (create_holdover w b)
      ≡ drop b.skip (take (if w then b.filled - b.seglen else b.filled) b.buf)
unfolding create_holdover
created true b h = ground arith
created false b h = ground arith

-- A holdover that is made at the end of the content, of bytes without a NUL, while none is held and
-- (if the segment is to be written later) none of it is written, comes back in front of the next
-- read, into whatever the shared buffer then holds, as the same segment; and the two writes together
-- write the content once.
pub create_holdover-ComesBack :
    (write_later : Bool) (b : Connection) (other : Bytes)
    → b.holdover ≡ none
    → b.pos + b.seglen ≡ b.filled
    → b.filled ≤ size b
    → HasNoNul (raw_segment b)
    → (write_later && ltb b.pos b.skip) ≡ false
    → ComesBack write_later b other
create_holdover-ComesBack w b other h e f k s = record {
  back = back;
  position = whole.2;
  same_length = whole.3;
  at_end = whole.1;
  written_once = rw (created w b h, again) (written w s);
}
  where
    measured : length (raw_segment b) ≡ b.seglen
    measured = omega (arith, length-take b.seglen (drop b.pos b.buf), length-drop b.pos b.buf)

    whole :
        ((resumed w b other).buf ≡ raw_segment b ++ drop (0 + length (raw_segment b)) other)
        × ((resumed w b other).filled ≡ b.seglen)
        × ((resumed w b other).pos ≡ 0)
        × ((resumed w b other).seglen ≡ b.seglen)
        × ((resumed w b other).skip ≡ (if w then 0 else b.seglen))
    whole = segment_whole w b other h k measured

    back : content (resumed w b other) ≡ raw_segment b
    back = cc (
      whole.0,
      whole.1,
      take-append_at b.seglen (raw_segment b) (drop (0 + length (raw_segment b)) other)
          (sym measured),
    )

    again : outgoing (resumed w b other) ≡ drop (if w then 0 else b.seglen) (raw_segment b)
    again = cc (back, whole.4)

    written :
        (v : Bool)
        → (v && ltb b.pos b.skip) ≡ false
        → drop b.skip (take (if v then b.filled - b.seglen else b.filled) b.buf)
            ++ drop (if v then 0 else b.seglen) (raw_segment b)
          ≡ outgoing b
    written true q = ground (
      arith,
      drop-append_le b.skip (take b.pos b.buf) (raw_segment b),
      length-take b.pos b.buf,
      take-add b.pos b.seglen b.buf,
    )
    written false q = rw (drop_end b.seglen (raw_segment b) (sym measured)) (append-nil _)
