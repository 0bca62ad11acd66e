-- ===== src/Kb/Line.antt =====
-- A line typed at the keyboard (w2/sys/kb.c) reaches the waiting task.
use sbrocks.Prelude.{
  ℕ, zero, suc, ◌+◌, ◌<◌, ◌≤◌, ◌≡◌, ◌≢◌, refl, sym, ◌∙◌, arith, ◌==◌, if◌then◌else◌, ltb, true,
  false, some, Option, ◌⊎◌, inl, inr, Bool-cases, bit_and, ◌∷◌, [], List, lt→ltb, length, get_or,
  map, ◌++◌,
}
use sbrocks.Prelude.Fault.{◌>>=◌}
use sbrocks.Kstring.{store, memcpy}
use sbrocks.Kstring.Copy.{Outside, memcpy-Inside}
use sbrocks.Kb.{
  Kb, Control, kb_handler, handlekey, scanf_key, deliver, char_of, code_at, kbdus, put_char,
  buffer_size, unset_flag, wake_waiting_task, task_runnable,
}

-- The handler for each of a list of scan codes.
unfoldable pub type_keys : List ℕ → Kb → Option Kb
type_keys [] kb = some kb
type_keys (k ∷ ks) kb = kb_handler k kb >>= type_keys ks

-- A key that stands for a character: no release, no control key, neither Enter nor Backspace.
pub record IsPlain (k : ℕ) : Type 0 where
  pub pressed : (bit_and k 0x80 == 0) ≡ true
  pub no_shift : (k == 42) ≡ false
  pub no_alt : (k == 56) ≡ false
  pub no_control : (k == 29) ≡ false
  pub no_enter : (code_at kbdus k == 10) ≡ false
  pub no_backspace : (code_at kbdus k == 8) ≡ false

unfoldable pub AllPlain : List ℕ → Type 0
AllPlain [] = Unit {0}
AllPlain (k ∷ ks) = IsPlain k × AllPlain ks

-- A task waits for a line, no control key is held, and the line so far is in the buffer.
pub record Waits (kb : Kb) : Type 0 where
  pub normal : kb.current_control ≡ Control.normal_key
  pub reading : kb.flag ≡ 1
  pub waiting : kb.waiting_task ≢ 0
  pub fits : kb.count ≤ buffer_size

abbrev pub typed : ℕ → Kb → Kb
typed k kb = record (put_char (code_at kbdus k) kb) {
  current_char = code_at kbdus k;
  echoed = code_at kbdus k ∷ kb.echoed;
  current_control = Control.normal_key;
}

pub kb_handler-plain :
    (k : ℕ) (kb : Kb)
    → IsPlain k
    → Waits kb
    → kb.i + 1 < kb.count
    → kb_handler k kb ≡ some (typed k kb)
unfolding kb_handler handlekey scanf_key char_of
kb_handler-plain k kb p w room =
    let read : (kb.flag == 1) ≡ true = (let r = w.reading in ground arith) in
    let low : ltb kb.i buffer_size ≡ true = (let f = w.fits in ground arith) in
    let more : ltb (kb.i + 1) kb.count ≡ true = ground arith in
    rw
      (
        p.pressed, p.no_shift, p.no_alt, p.no_control, read, w.normal, p.no_enter, p.no_backspace,
        low, more,
      )
      refl

-- What a run of plain keys leaves.
record Typed (ks : List ℕ) (kb kb' : Kb) : Type 0 where
  waits : Waits kb'
  index : kb'.i ≡ kb.i + length ks
  same_a : kb'.a ≡ kb.a
  same_str : kb'.str ≡ kb.str
  same_count : kb'.count ≡ kb.count
  same_task : kb'.waiting_task ≡ kb.waiting_task
  chars :
      (j : ℕ) → j < length ks → kb'.memory (kb.a + kb.i + j) ≡ get_or (map (code_at kbdus) ks) j 0
  before : (b : ℕ) → b < kb.a + kb.i → kb'.memory b ≡ kb.memory b

type_keys-Typed :
    (ks : List ℕ) (kb : Kb)
    → AllPlain ks
    → Waits kb
    → kb.i + length ks + 1 ≤ kb.count
    → (kb' : Kb) × (type_keys ks kb ≡ some kb') × Typed ks kb kb'
unfolding type_keys AllPlain
type_keys-Typed [] kb all w room = (
  kb,
  refl,
  record {
    waits = w;
    index = omega arith;
    same_a = refl;
    same_str = refl;
    same_count = refl;
    same_task = refl;
    chars = λ j h. elim h [ ];
    before = λ b h. refl;
  },
)
type_keys-Typed (k ∷ ks) kb all w room =
    let kb1 = typed k kb in
    let w1 : Waits kb1 = record {
      normal = refl;
      reading = w.reading;
      waiting = w.waiting;
      fits = w.fits;
    } in
    let (kb', run, t) = type_keys-Typed ks kb1 all.1 w1 (omega arith) in
    (
      kb',
      rw (kb_handler-plain k kb all.0 w (omega arith)) run,
      record {
        waits = t.waits;
        index = (let e = t.index in omega arith);
        same_a = t.same_a;
        same_str = t.same_str;
        same_count = t.same_count;
        same_task = t.same_task;
        chars = λ j h. chars_of kb' t j h;
        before = λ b h. t.before b (omega arith) ∙ ground arith;
      },
    )
  where
    chars_of :
        (kb' : Kb)
        → Typed ks (typed k kb) kb'
        → (j : ℕ) → j < length (k ∷ ks)
        → kb'.memory (kb.a + kb.i + j) ≡ get_or (map (code_at kbdus) (k ∷ ks)) j 0
    chars_of kb' t zero h =
        let at : kb.a + kb.i + 0 ≡ kb.a + kb.i = omega arith in
        rw at (t.before (kb.a + kb.i) (omega arith) ∙ ground arith)
    chars_of kb' t (suc j) h =
        let at : kb.a + kb.i + suc j ≡ kb.a + (kb.i + 1) + j = omega arith in
        rw at (t.chars j (omega arith))

-- The state that Enter leaves after `put_char 10`.
abbrev delivered : Kb → Kb
delivered kb =
    let m = memcpy (store kb.memory (kb.a + kb.i) 10) kb.str kb.a (kb.i + 1) in
    record kb {
      memory = store m kb.a 0;
      i = 0;
      flag = 0;
      waiting_state = task_runnable;
      current_char = 10;
      echoed = 10 ∷ kb.echoed;
      current_control = Control.normal_key;
    }

kb_handler-enter :
    (kb : Kb) → Waits kb → kb.i < buffer_size → kb_handler 28 kb ≡ some (delivered kb)
unfolding kb_handler handlekey scanf_key char_of deliver unset_flag wake_waiting_task code_at kbdus
kb_handler-enter kb w room =
    let read : (kb.flag == 1) ≡ true = (let r = w.reading in ground arith) in
    let low : ltb kb.i buffer_size ≡ true = lt→ltb kb.i buffer_size room in
    let here : (kb.waiting_task == 0) ≡ false = (let n = w.waiting in ground arith) in
    rw (read, w.normal, low, here) refl

-- The buffer and the area that the task gave do not meet.
abbrev pub Apart : Kb → Type 0
Apart kb = (kb.a + buffer_size ≤ kb.str) ⊎ (kb.str + buffer_size ≤ kb.a)

delivered-bytes :
    (kb : Kb) (j : ℕ)
    → kb.i < buffer_size
    → Apart kb
    → j < kb.i + 1
    → (delivered kb).memory (kb.str + j) ≡ (if j == kb.i then 10 else kb.memory (kb.a + j))
delivered-bytes kb j room apart h =
    let m = store kb.memory (kb.a + kb.i) 10 in
    let copied : memcpy m kb.str kb.a (kb.i + 1) (kb.str + j) ≡ m (kb.a + j) =
      memcpy-Inside m kb.str kb.a (kb.i + 1) j (ground arith) h in
    let off : (kb.a == kb.str + j) ≡ false = ground arith in rw (off, copied) (ground arith)

abbrev pub line_of : List ℕ → List ℕ
line_of keys = map (code_at kbdus) keys ++ 10 ∷ []

line_before :
    (keys : List ℕ) (j : ℕ)
    → j < length keys
    → get_or (line_of keys) j 0 ≡ get_or (map (code_at kbdus) keys) j 0
line_before [] j h = elim h [ ]
line_before (k ∷ ks) zero h = refl
line_before (k ∷ ks) (suc j) h = line_before ks j (omega arith)

line_end : (keys : List ℕ) → get_or (line_of keys) (length keys) 0 ≡ 10
line_end [] = refl
line_end (k ∷ ks) = line_end ks

-- Plain keys and then Enter give the waiting task its line: the characters and a newline stand at
-- the address that it gave, the task, still the same, is runnable, the flag is off and the buffer
-- starts anew. It needs that no control key is held, that a task waits with the flag on, that the
-- buffer is empty, that the line with its newline has at most as many characters as the count, which
-- is at most 1024, and that the buffer and the task's area, of 1024 bytes each, do not meet.
pub type_keys-line :
    (keys : List ℕ) (kb : Kb)
    → AllPlain keys
    → Waits kb
    → kb.i ≡ 0
    → length keys + 1 ≤ kb.count
    → Apart kb
    → (kb1 kb' : Kb) × (type_keys keys kb ≡ some kb1)
      × (kb_handler 28 kb1 ≡ some kb')
      × ((j : ℕ) → j < length keys + 1 → kb'.memory (kb.str + j) ≡ get_or (line_of keys) j 0)
      × (kb'.waiting_state ≡ task_runnable)
      × (kb'.flag ≡ 0)
      × (kb'.i ≡ 0)
      × (kb'.waiting_task ≡ kb.waiting_task)
type_keys-line keys kb all w start room apart =
    let (kb1, run, t) = type_keys-Typed keys kb all w (omega arith) in
    let low : kb1.i < buffer_size = (let f = w.fits in let e = t.index in omega arith) in
    let apart1 : Apart kb1 = rw (t.same_a, t.same_str) apart in
    (
      kb1,
      delivered kb1,
      run,
      kb_handler-enter kb1 t.waits low,
      λ j h.
          let e = t.index in
          let got = delivered-bytes kb1 j low apart1 (omega arith) in
          rw (sym t.same_str) (got ∙ byte_of kb1 t j h),
      refl,
      refl,
      refl,
      t.same_task,
    )
  where
    byte_of :
        (kb1 : Kb)
        → Typed keys kb kb1
        → (j : ℕ) → j < length keys + 1
        → (if j == kb1.i then 10 else kb1.memory (kb1.a + j)) ≡ get_or (line_of keys) j 0
    byte_of kb1 t j h = elim (Bool-cases (ltb j (length keys))) [
      | inl inside ↦
          let e = t.index in
          let ne : (j == kb1.i) ≡ false = ground arith in
          let at : kb1.a + j ≡ kb.a + kb.i + j = (let s = t.same_a in omega arith) in
          rw (ne, at) (t.chars j (ground arith) ∙ sym (line_before keys j (ground arith)))
      | inr last ↦
          let e = t.index in
          let eq : (j == kb1.i) ≡ true = ground arith in
          let at : j ≡ length keys = ground arith in rw eq (rw at (sym (line_end keys)))
    ]

-- A plain key that makes the line as long as the count ends it, but only the first character is
-- copied to the task: no other byte outside the buffer changes. It needs that no control key is
-- held, that a task waits with the flag on, that the count is at most 1024 and the character has a
-- place in the buffer, and that the buffer and the task's area, of 1024 bytes each, do not meet.
pub kb_handler-full :
    (k : ℕ) (kb : Kb)
    → IsPlain k
    → Waits kb
    → kb.i < buffer_size
    → kb.count ≤ kb.i + 1
    → Apart kb
    → (kb' : Kb) × (kb_handler k kb ≡ some kb')
      × (kb'.flag ≡ 0)
      × (kb'.waiting_state ≡ task_runnable)
      × (kb'.memory kb.str ≡ (if kb.i == 0 then code_at kbdus k else kb.memory kb.a))
      × ((b : ℕ) → Outside kb.a buffer_size b → b ≢ kb.str → kb'.memory b ≡ kb.memory b)
unfolding kb_handler handlekey scanf_key char_of deliver unset_flag wake_waiting_task memcpy
kb_handler-full k kb p w room full apart =
    let c = code_at kbdus k in
    let read : (kb.flag == 1) ≡ true = (let r = w.reading in ground arith) in
    let low : ltb kb.i buffer_size ≡ true = lt→ltb kb.i buffer_size room in
    let here : (kb.waiting_task == 0) ≡ false = (let n = w.waiting in ground arith) in
    let done : ltb (kb.i + 1) kb.count ≡ false = ground arith in
    let kb1 = record kb {
      memory = store (memcpy (store kb.memory (kb.a + kb.i) c) kb.str kb.a 1) kb.a 0;
      i = 0;
      flag = 0;
      waiting_state = task_runnable;
      current_char = c;
      echoed = c ∷ kb.echoed;
      current_control = Control.normal_key;
    } in
    (
      kb1,
      rw
          (
            p.pressed, p.no_shift, p.no_alt, p.no_control, read, w.normal, p.no_enter,
            p.no_backspace, low, done, here,
          )
          refl,
      refl,
      refl,
      (let off : (kb.a == kb.str) ≡ false = ground arith in
          let self : (kb.str == kb.str) ≡ true = ground arith in rw (off, self) (ground arith)),
      λ b out ne.
          let n1 : (kb.a == b) ≡ false = ground arith in
          let n2 : (kb.str == b) ≡ false = ground arith in
          let n3 : (kb.a + kb.i == b) ≡ false = ground arith in rw (n1, n2, n3) refl,
    )
