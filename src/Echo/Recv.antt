-- ===== src/Echo/Recv.antt =====
-- Receiving of the echo server: what is in the buffer after each read.
use esma.Base.{
  ℕ, zero, suc, ◌+◌, ◌-◌, ◌^◌, ◌≤◌, ◌<◌, ◌≡◌, refl, ap, ap₂, sym, subst, ◌∙◌, inl, inr, Bool, true,
  false, ◌&&◌, some, List, [], ◌∷◌, ◌++◌, length, length-append, ltb, leb, ◌==◌, if◌then◌else◌,
  Bool-cases, lt→ltb, arith,
}
use esma.Base.Bytes.{
  Memory, read, write, grown, u32, sub32, read-ext, write-outside, read-write_self,
}
use esma.Dbuf.{Dbuf, expand, get_last}
use esma.Echo.{
  message, Turn, turn, got, newline, make_room, after_read, read_into, recv_room, recv_data_0,
}

-- Of a message, `bytes` have been received; the next ones go behind them.
pub record Received (d : Dbuf) (bytes : List ℕ) : Type 0 where
  pub pos : d.pos ≡ length bytes
  pub cnt : d.cnt ≡ length bytes
  pub fits : length bytes ≤ d.len
  pub held : read d.loc 0 (length bytes) ≡ bytes

-- The message is there; `before` of it were received by earlier reads.
pub record Complete (d : Dbuf) (before bytes : List ℕ) : Type 0 where
  pub pos : d.pos ≡ length before
  pub cnt : d.cnt ≡ length (before ++ bytes)
  pub fits : length (before ++ bytes) ≤ d.len
  pub held : read d.loc 0 (length (before ++ bytes)) ≡ before ++ bytes

unfoldable pub last_of : List ℕ → ℕ
last_of [] = 0
last_of (x ∷ []) = x
last_of (x ∷ y ∷ xs) = last_of (y ∷ xs)

pub read-append :
    (m : Memory) (off a b : ℕ) → read m off (a + b) ≡ read m off a ++ read m (off + a) b
unfolding read
read-append m off zero b =
    let e : off + 0 ≡ off = omega arith in let f : 0 + b ≡ b = omega arith in rw (e, f) refl
read-append m off (suc a) b =
    let e : suc a + b ≡ suc (a + b) = omega arith in
    let f : off + 1 + a ≡ off + suc a = omega arith in
    rw e (
      ap (λ (r : List ℕ). m off ∷ r)
        (read-append m (off + 1) a b ∙ ap (λ (o : ℕ). read m (off + 1) a ++ read m o b) f))

-- Bytes that are written behind those that are held.
pub held-write :
    (m : Memory) (before bytes : List ℕ)
    → read m 0 (length before) ≡ before
    → read (write m (length before) bytes) 0 (length (before ++ bytes)) ≡ before ++ bytes
held-write m before bytes h =
    let m' = write m (length before) bytes in
    ap (read m' 0) (length-append before bytes)
    ∙ read-append m' 0 (length before) (length bytes)
    ∙ ap₂ (λ (a b : List ℕ). a ++ b)
        (read-ext m' m 0 (length before)
            (λ a p q. write-outside m (length before) bytes a (inl (omega arith)))
          ∙ h)
        (ap (λ (o : ℕ). read m' o (length bytes)) {x = 0 + length before} {y = length before}
            (omega arith)
          ∙ read-write_self m (length before) bytes)

-- The buffer with room is the same, but longer.
record Roomy (d d' : Dbuf) (bytes : List ℕ) (ba : ℕ) : Type 0 where
  held : Received d' bytes
  room : length bytes + ba ≤ d'.len

make_room-Roomy :
    (d : Dbuf) (bytes : List ℕ) (ba : ℕ) (junk : Memory)
    → Received d bytes
    → d.len < 2 ^ 32
    → length bytes + ba < 2 ^ 32
    → (d' : Dbuf) × (make_room d ba (some junk) ≡ some d') × Roomy d d' bytes ba
unfolding make_room expand grown
make_room-Roomy d bytes ba junk r small total =
    let n = length bytes in
    let space : sub32 d.len d.cnt ≡ d.len - n = omega (arith, r.cnt, r.fits) in
    elim (Bool-cases (ltb (sub32 d.len d.cnt) ba)) [
      | inl e ↦
          let less : d.len - n < ba = ground (arith, space) in
          let longer : sub32 (d.len + ba) (sub32 d.len d.cnt) ≡ n + ba =
            omega (arith, space, r.fits) in
          let d' : Dbuf = record d { loc = grown d.len d.loc junk; len = n + ba } in
          (
            d',
            rw (make_room, e, longer) refl,
            record {
              held = record {
                pos = r.pos;
                cnt = r.cnt;
                fits = omega arith;
                held =
                    read-ext (grown d.len d.loc junk) d.loc 0 n
                      (λ a p q. inside a (omega (arith, r.fits)))
                    ∙ r.held;
              };
              room = omega arith;
            },
          )
      | inr e ↦
          (d, rw (make_room, e) refl, record { held = r; room = ground (arith, space, r.fits) })
    ]
  where
    inside : (a : ℕ) → a < d.len → grown d.len d.loc junk a ≡ d.loc a
    inside a h = rw (grown, lt→ltb a d.len h) refl

last-read :
    (m : Memory) (off : ℕ) (xs : List ℕ)
    → read m off (length xs) ≡ xs
    → 0 < length xs
    → m (off + (length xs - 1)) ≡ last_of xs
unfolding read last_of
last-read m off [] h p = absurd (omega arith)
last-read m off (x ∷ []) h p = let e : off + (1 - 1) ≡ off = omega arith in rw e (head_eq h)
  where
    head_eq : m off ∷ [] ≡ x ∷ [] → m off ≡ x
    head_eq q = cc
last-read m off (x ∷ y ∷ xs) h p =
    let e : off + (length (x ∷ y ∷ xs) - 1) ≡ off + 1 + (length (y ∷ xs) - 1) = omega arith in
    rw e (last-read m (off + 1) (y ∷ xs) (tail_eq h) (omega arith))
  where
    tail_eq :
        m off ∷ read m (off + 1) (length (y ∷ xs)) ≡ x ∷ y ∷ xs
        → read m (off + 1) (length (y ∷ xs)) ≡ y ∷ xs
    tail_eq q = cc

-- The read gave all that there was, and a line ends with it.
unfoldable pub is_last : ℕ → List ℕ → Bool
is_last ba bytes = (length bytes == ba) && (last_of bytes == newline)

pub is_last-nonempty : (ba : ℕ) (bytes : List ℕ) → is_last ba bytes ≡ true → 0 < length bytes
unfolding is_last last_of
is_last-nonempty ba [] e = elim (Bool-cases (0 == ba)) [
  | inl q ↦ absurd (impossible (sym e ∙ rw q refl))
  | inr q ↦ absurd (impossible (sym e ∙ rw q refl))
]
  where
    impossible : true ≡ false → ⊥
    impossible q = cc
is_last-nonempty ba (x ∷ xs) e = omega arith

-- What a read comes to.
pub data Reads (before : List ℕ) (ba : ℕ) (bytes : List ℕ) (t : Turn) : Type 0 where
  complete :
      (d : Dbuf)
      → is_last ba bytes ≡ true
      → t ≡ turn d (message 0 ∷ [])
      → Complete d before bytes
      → Reads before ba bytes t
  more :
      (d : Dbuf)
      → is_last ba bytes ≡ false
      → t ≡ turn d []
      → Received d (before ++ bytes)
      → Reads before ba bytes t

-- The buffer that holds `n` bytes.
abbrev holding : Memory → ℕ → ℕ → Dbuf
holding m len n = record { loc = m; pos = n; cnt = n; len = len }

Received-holding :
    (d : Dbuf) (bytes : List ℕ) → Received d bytes → d ≡ holding d.loc d.len (length bytes)
Received-holding d bytes r i = record { loc = d.loc; pos = r.pos i; cnt = r.cnt i; len = d.len }

module _ (m : Memory) (len : ℕ) (before bytes : List ℕ) (ba : ℕ) where
  abbrev stored : Dbuf
  stored = record {
    loc = write m (length before) bytes;
    pos = length before;
    cnt = length (before ++ bytes);
    len = len;
  }

  ends :
      (length bytes == ba) ≡ true
      → 0 < ba
      → length before + ba < 2 ^ 32
      → get_last stored ≡ last_of bytes
  unfolding get_last
  ends e p small =
      let n = length-append before bytes in
      let last : sub32 (length (before ++ bytes)) 1 ≡ length before + (length bytes - 1) =
        ground (arith, n) in
      ap (write m (length before) bytes) last
      ∙ last-read (write m (length before) bytes) (length before) bytes
          (read-write_self m (length before) bytes) (ground arith)

  tested :
      0 < ba
      → length before + ba < 2 ^ 32
      → ((length bytes == ba) && (get_last stored == newline)) ≡ is_last ba bytes
  unfolding is_last
  tested p small = elim (Bool-cases (length bytes == ba)) [
    | inl e ↦ rw (e, ends e p small) refl
    | inr e ↦ rw e refl
  ]

  read_into-stored :
      0 < ba
      → length before + ba < 2 ^ 32
      → length bytes ≤ ba
      → length before + ba ≤ len
      → read_into ba (got bytes) (holding m len (length before)) ≡ (
          if is_last ba bytes
          then turn stored (message 0 ∷ [])
          else turn (record stored { pos = length (before ++ bytes) }) [])
  unfolding read_into after_read
  read_into-stored p small le room =
      let n = length-append before bytes in
      let fits : leb (length before + length bytes) len ≡ true = ground arith in
      let count : u32 (length before + length bytes) ≡ length (before ++ bytes) =
        omega (arith, n) in
      rw (fits, count, sym n, tested p small) refl

  stored-Complete :
      read m 0 (length before) ≡ before
      → length (before ++ bytes) ≤ len
      → Complete stored before bytes
  stored-Complete h fits = record {
    pos = refl;
    cnt = refl;
    fits = fits;
    held = held-write m before bytes h;
  }

  stored-Received :
      read m 0 (length before) ≡ before
      → length (before ++ bytes) ≤ len
      → Received (record stored { pos = length (before ++ bytes) }) (before ++ bytes)
  stored-Received h fits = record {
    pos = refl;
    cnt = refl;
    fits = fits;
    held = held-write m before bytes h;
  }

  read_into-Reads :
      read m 0 (length before) ≡ before
      → 0 < ba
      → length before + ba < 2 ^ 32
      → length bytes ≤ ba
      → length before + ba ≤ len
      → Reads before ba bytes (read_into ba (got bytes) (holding m len (length before)))
  read_into-Reads h p small le room =
      let fits : length (before ++ bytes) ≤ len = omega (arith, length-append before bytes) in
      let e = read_into-stored p small le room in
      elim (Bool-cases (is_last ba bytes)) [
        | inl q ↦ complete stored q (e ∙ rw q refl) (stored-Complete h fits)
        | inr q ↦
            more (record stored { pos = length (before ++ bytes) }) q (e ∙ rw q refl)
              (stored-Received h fits)
      ]

-- If the buffer holds what was received of a message, of less than 4 GiB, and memory is there, a read
-- of what the kernel has goes right behind it and stays inside the buffer; the message is complete,
-- and passed on, exactly if the read gave all that there was and ended a line.
pub recv_data_0-Reads :
    (d : Dbuf) (before bytes : List ℕ) (ba : ℕ) (junk : Memory)
    → Received d before
    → d.len < 2 ^ 32
    → 0 < ba
    → length before + ba < 2 ^ 32
    → length bytes ≤ ba
    → Reads before ba bytes (recv_data_0 d ba (some junk) (got bytes))
unfolding recv_data_0 recv_room
recv_data_0-Reads d before bytes ba junk r small p total le =
    let (d', e, roomy) = make_room-Roomy d before ba junk r small total in
    let some_bytes : (ba == 0) ≡ false = ground arith in
    let there : recv_data_0 d ba (some junk) (got bytes) ≡ read_into ba (got bytes) d' =
      rw (recv_data_0, some_bytes) (ap (recv_room d ba (got bytes)) e) in
    subst (Reads before ba bytes)
      (sym (there ∙ ap (read_into ba (got bytes)) (Received-holding d' before roomy.held)))
      (read_into-Reads d'.loc d'.len before bytes ba roomy.held.held p total le roomy.room)
