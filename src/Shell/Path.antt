-- ===== src/Shell/Path.antt =====
-- w2/bin/sbush/sbush.c: the environment and the search for a command in its path.
-- The program's constant texts stand at the addresses of `Constants`; `can_open` gives whether a file
-- can be opened for reading. An address of 0 is a null pointer, and a use of one that `malloc` gives is
-- a fault. `text_fuel` is also for the blocks of the heap.
use sbrocks.Prelude.{
  ℕ, zero, suc, ◌+◌, ◌-◌, Bool, false, Option, none, some, ltb, ◌==◌, not, if◌then◌else◌, ◌&&◌,
  ◌||◌,
}
use sbrocks.Prelude.Fault.{◌>>=◌, ◌>>◌, require}
use sbrocks.Kstring.{Memory, store}
use sbrocks.Libc.{strlen, strcpy, strncpy, strcat, strcmp, strstr, memset}
use sbrocks.Malloc.{Heap, malloc}
use sbrocks.Shell.{trim, max_len}

-- The texts "exit", "/", ":" and "PATH".
pub record Constants : Type 0 where
  pub exit_text : ℕ
  pub slash : ℕ
  pub colon : ℕ
  pub path_text : ℕ

-- The memory and the heap.
abbrev pub Space : Type 0
Space = Memory × Heap

-- The loop up to the key, and whether it has moved onto one.
pub find_key : (n : ℕ) → Memory → (src key : ℕ) → (found : Bool) → ℕ × Bool
find_key zero m src key found = (src, found)
find_key (suc n) m src key found =
    let rest = find_key n m (src + 1) key (found || (m (src + 1) == key)) in
    if m src == key then (src, found) else rest

module _ (text_fuel : ℕ) where
  -- The text in front of the key as a copy; `none` leaves `*before` as it was.
  pub copy_before : (str count : ℕ) → Space → Option (Option ℕ × Space)
  copy_before str count (m, heap) = do
    m1 ← trim text_fuel m str
    len ← strlen text_fuel m1 str
    (before, heap1) ← malloc text_fuel len heap
    require (not (ltb 0 len && (before == 0)))
    if ltb 0 len
        then some (some before, (strncpy count (memset len m1 before 0) before str, heap1))
        else some (none, (m1, heap))

  -- What follows the key, 0 where there is none, and what stands in front of it.
  pub tokenize_with_key : (input key : ℕ) → Space → Option (ℕ × Option ℕ × Space)
  tokenize_with_key input key (m, heap) = do
    len ← strlen text_fuel m input
    let (src, found) = find_key len m input key false
    (before, (m1, heap1)) ← copy_before input (src - input) (m, heap)
    let trimmed = do m2 ← trim text_fuel m1 (src + 1); some (src + 1, before, (m2, heap1))
    if found then trimmed else some (0, before, (m1, heap1))

  -- `token` is the buffer of the function's frame.
  pub get_environment : (token key env : ℕ) → Space → Option (ℕ × Space)
  get_environment token key env (m, heap) = do
    m1 ← strcpy text_fuel m token env
    (res, before, (m2, heap1)) ← tokenize_with_key token b'=' (m1, heap)
    name ← before
    order ← strcmp text_fuel m2 name key
    some ((if order == 0 then res else 0), (m2, heap1))

  pub set_path : Constants → (env newval : ℕ) → Space → Option Space
  set_path texts env newval (m, heap) = do
    m1 ← trim text_fuel m env
    env_len ← strlen text_fuel m1 env
    new_len ← strlen text_fuel m1 newval
    let len = env_len + new_len + 1
    (str, heap1) ← malloc text_fuel len heap
    require (not (str == 0))
    m2 ← strcpy text_fuel (memset len m1 str 0) str env
    m3 ← strcat text_fuel (memset 1024 m2 env 0) str texts.colon
    m4 ← strcat text_fuel m3 str newval
    m5 ← strcpy text_fuel m4 env str
    some (m5, heap1)

  -- The loop over the directories; the result is 0 where none has the command.
  pub search_path :
      Constants
      → (can_open : Memory → (path : ℕ) → Bool) → (fuel cmd after : ℕ) → Space
      → Option (ℕ × Space)
  search_path texts can_open zero cmd after s = none
  search_path texts can_open (suc fuel) cmd after (m, heap) =
      let look = (do
        (abspath, heap1) ← malloc text_fuel max_len heap
        require (not (abspath == 0))
        (after', before, (m2, heap2)) ←
            tokenize_with_key after b':' (memset max_len m abspath 0, heap1)
        directory ← before
        m3 ← strcpy text_fuel m2 abspath directory
        m4 ← strcat text_fuel m3 abspath texts.slash
        m5 ← strcat text_fuel m4 abspath cmd
        m6 ← trim text_fuel m5 abspath
        let next = search_path texts can_open fuel cmd after' (m6, heap2)
        if can_open m6 abspath then some (abspath, (m6, heap2)) else next) in
      if after == 0 then some (0, (m, heap)) else look

  pub get_absolute_path :
      Constants
      → (can_open : Memory → (path : ℕ) → Bool) → (fuel token cmd env : ℕ) → Space
      → Option (ℕ × Space)
  get_absolute_path texts can_open fuel token cmd env (m, heap) = do
    is_exit ← strcmp text_fuel m texts.exit_text cmd
    at_slash ← strstr text_fuel m cmd texts.slash
    let search = do
      (env_path, heap1) ← malloc text_fuel max_len heap
      require (not (env_path == 0))
      (value, (m2, heap2)) ←
          get_environment token texts.path_text env (memset max_len m env_path 0, heap1)
      require (not (value == 0))
      m3 ← strcpy text_fuel m2 env_path value
      search_path texts can_open fuel cmd env_path (m3, heap2)
    if is_exit == 0
        then some (cmd, (m, heap))
        else if not (at_slash == 0)
        then some (cmd, (m, heap))
        else search

-- The value is written behind the pointer, which is left at its end.
pub copy_value : (fuel : ℕ) → Memory → (keyvalue value : ℕ) → (found : Bool) → Option (ℕ × Memory)
copy_value zero m keyvalue value found = none
copy_value (suc fuel) m keyvalue value found =
    let c = m (keyvalue + 1) in
    let now = found || (c == b'=') in
    let next = copy_value fuel (store m value c) (keyvalue + 1) (value + 1) now in
    let skip = copy_value fuel m (keyvalue + 1) value now in
    if m keyvalue == 0 then some (value, m) else if now then next else skip

pub get_value : (fuel keyvalue : ℕ) → Space → Option (ℕ × Space)
get_value fuel keyvalue (m, heap) = do
  len ← strlen fuel m keyvalue
  (value, heap1) ← malloc fuel len heap
  require (not (ltb 0 len && (value == 0)))
  (end, m1) ← copy_value fuel (memset len m value 0) keyvalue value false
  some (end, (m1, heap1))
