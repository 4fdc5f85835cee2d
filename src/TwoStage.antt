-- ===== src/TwoStage.antt =====
-- The two-stage installation on an internal partition: validate_state, verify_geometry, resume and
-- finish of openwrt/bundle/part-two-stage.py. What the device and the files answer in one call is an
-- argument; a step that raises, or in which the process dies, is one that does not succeed. The
-- texts are lists of character codes.
pub mod Checks
pub mod Runs
pub mod Outcomes
pub mod Later
pub mod Completion
mod Examples
use e5_linux.Base.{
  ℕ, ◌+◌, ◌-◌, ◌*◌, ◌%◌, ◌^◌, Bool, true, false, ◌&&◌, ◌||◌, not, ◌==◌, ltb, leb, if◌then◌else◌,
  Option, none, some, List, [], ◌∷◌, ◌++◌, length, take,
}
use e5_linux.Base.Bytes.{Bytes, eq_bytes}
use e5_linux.Base.Result.{Result, ok, err, ◌>>=◌, ◌>>◌, raise_if, or_raise}

-- state['phase']; `unknown` is any other value.
pub data Phase : Type 0 where
  prepared awaiting_android writing installed complete unknown : Phase

-- The `raise ValueError` lines of the two checks and of finish, in order.
pub data StageError : Type 0 where
  bad_transaction bad_token bad_size unaligned bad_settings : StageError
  other_geometry other_device not_ready : StageError

-- A row that `probe` reads.
pub record Region : Type 0 where
  pub node : Bytes
  pub cid : Bytes
  pub start : ℕ
  pub size : ℕ

-- The transaction's file.
pub record State : Type 0 where
  pub version : ℕ
  pub phase : Phase
  pub token : Bytes
  pub serial : Bytes
  pub model : Bytes
  pub data_region : Region
  pub target : ℕ
  pub need : ℕ
  pub raw_size : ℕ
  pub grow : ℕ
  pub root_start : Option ℕ
  pub boot_sha : Bytes
  pub image_sha : Bytes
  pub apn : Bytes
  pub ssid : Bytes
  pub key : Bytes

abbrev pub is_known : Phase → Bool
is_known unknown = false
is_known _ = true

-- re.fullmatch('[0-9a-f]{32}', token)
abbrev pub is_hex : ℕ → Bool
is_hex c = (leb 48 c && leb c 57) || (leb 97 c && leb c 102)

unfoldable pub all_hex : Bytes → Bool
all_hex [] = true
all_hex (c ∷ cs) = is_hex c && all_hex cs

-- `any(c in value for c in "'\r\n\x00")`
unfoldable pub has_quote : Bytes → Bool
has_quote [] = false
has_quote (c ∷ cs) = c == 39 || c == 13 || c == 10 || c == 0 || has_quote cs

-- `not 0 < value < 1 << 40`
abbrev pub is_bad_size : ℕ → Bool
is_bad_size n = n == 0 || leb (2 ^ 40) n

unfoldable pub validate_state : State → Result StageError (Unit {0})
validate_state s = do
  raise_if (not (s.version == 2) || not (is_known s.phase)) bad_transaction
  raise_if (not (length s.token == 32 && all_hex s.token)) bad_token
  raise_if (is_bad_size s.need || is_bad_size s.target || is_bad_size s.raw_size) bad_size
  raise_if (not (s.need % 2048 == 0) || not (s.target % 2048 == 0) || not (leb s.grow 1)) unaligned
  raise_if (has_quote s.apn || has_quote s.ssid || has_quote s.key) bad_settings

-- `node.split('p')[0]`
unfoldable pub disk_of : Bytes → Bytes
disk_of [] = []
disk_of (c ∷ cs) = if c == b'p' then [] else c ∷ disk_of cs

-- `state.get('root_start', expected['start'] + state['target'])`
abbrev pub root_start_of : State → ℕ
root_start_of s = elim s.root_start [ none ↦ s.data_region.start + s.target | some at ↦ at ]

-- A row that is not there differs from what is expected.
unfoldable pub verify_geometry : State → Option Region → Option Region → Result StageError Region
verify_geometry s user_data root_row = do
  data_row ← or_raise user_data other_geometry
  root ← or_raise root_row other_geometry
  raise_if
      (not (eq_bytes data_row.cid s.data_region.cid)
        || not (eq_bytes data_row.node s.data_region.node)
        || not (data_row.start == s.data_region.start)
        || not (data_row.size == s.target)
        || not (eq_bytes root.cid s.data_region.cid)
        || not (root.start == root_start_of s)
        || not (root.size == s.need)
        || not (eq_bytes (disk_of root.node) (disk_of s.data_region.node)))
      other_geometry
  ok root

-- What one call of finish meets: the identities, the two rows, whether install_preflight passes, the
-- 128 bytes at the start of the partition, and which of the later steps succeed.
pub record Answers : Type 0 where
  pub serial : Bytes
  pub model : Bytes
  pub boot_sha : Bytes
  pub image_sha : Bytes
  pub user_data : Option Region
  pub root_row : Option Region
  pub preflight : Bool
  pub marker : Bytes
  pub pushed : Bool
  pub wrote : Bool
  pub final_boot : Bool
  pub flashed : Bool
  pub armed : Bool

-- What was done to the device: part-write.sh was started on a partition, or succeeded there; boot_b
-- was written, slot b armed.
pub data Event : Type 0 where
  rewriting rewritten : Region → Event
  flashing arming : Event

-- The file and the device's history, newest first.
pub record World : Type 0 where
  pub state : State
  pub events : List Event

abbrev pub in_phase : Phase → State → State
in_phase p s = record s { phase = p }

-- 'E5-PART-PREPARED-V2 ' + token + '\n'
abbrev pub marker_of : Bytes → Bytes
marker_of token =
    (b'E' ∷ b'5' ∷ b'-' ∷ b'P' ∷ b'A' ∷ b'R' ∷ b'T' ∷ b'-' ∷ b'P' ∷ b'R' ∷ b'E' ∷ b'P' ∷ b'A' ∷ b'R'
      ∷ b'E' ∷ b'D' ∷ b'-' ∷ b'V' ∷ b'2' ∷ b' ' ∷ [])
    ++ (token ++ (10 ∷ []))

unfoldable pub is_marked : State → Answers → Bool
is_marked s a = eq_bytes (take (length (marker_of s.token)) a.marker) (marker_of s.token)

-- The checks in front of the writes; the row of the partition comes out.
unfoldable pub check : Answers → State → Result StageError Region
check a s = do
  validate_state s
  raise_if
      (not (eq_bytes a.serial s.serial)
        || not (eq_bytes a.model s.model)
        || not (eq_bytes a.boot_sha s.boot_sha)
        || not (eq_bytes a.image_sha s.image_sha))
      other_device
  root ← verify_geometry s a.user_data a.root_row
  raise_if (not a.preflight) not_ready
  ok root

-- From `final_boot` on.
unfoldable pub finish_boot : Answers → World → World
finish_boot a w =
    if not a.final_boot
    then w
    else (if not a.flashed
        then record w { events = flashing ∷ w.events }
        else (if not a.armed then record w { events = arming ∷ (flashing ∷ w.events) } else record {
          state = in_phase complete w.state;
          events = arming ∷ (flashing ∷ w.events);
        }))

-- The `with` block and what follows it.
unfoldable pub write_root : Answers → Region → World → World
write_root a root w =
    if not a.pushed
    then w
    else (if not a.wrote
        then record { state = in_phase writing w.state; events = rewriting root ∷ w.events }
        else finish_boot a (record {
          state = in_phase installed w.state;
          events = rewritten root ∷ (rewriting root ∷ w.events);
        }))

unfoldable pub install : Answers → Region → World → Phase → World
install a root w installed = finish_boot a w
install a root w writing = write_root a root w
install a root w _ = if is_marked w.state a then write_root a root w else w

unfoldable pub proceed : Answers → World → Phase → Result StageError Region → World
proceed a w p (err e) = w
proceed a w p (ok root) = install a root w p

-- finish; a check that raises leaves everything as it was.
unfoldable pub finish_in : Answers → World → Phase → World
finish_in a w complete = w
finish_in a w p = proceed a w p (check a w.state)

unfoldable pub finish : Answers → World → World
finish a w = finish_in a w w.state.phase

-- Calls of finish, each by another run of the program with --resume-part.
unfoldable pub resume_all : List Answers → World → World
resume_all [] w = w
resume_all (a ∷ answers) w = resume_all answers (finish a w)
