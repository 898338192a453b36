-- ===== src/Modules/Packer.antt =====
-- Toolchain/ModulePacker/main.c: the kernel and the modules are packed into one file. A file is its bytes;
-- the output is not one of the files that are packed.
pub mod Image
use dog_os.Prelude.{
  ℕ, zero, suc, ◌+◌, ◌-◌, ◌*◌, ◌/◌, ◌%◌, ◌^◌, Bool, true, false, not, Option, none, some, List, [],
  ◌∷◌, ◌++◌, ltb, leb, ◌==◌, if◌then◌else◌, ◌>>=◌, length, take, drop, get_elem?,
}

abbrev pub buffer_size : ℕ
buffer_size = 128

abbrev pub max_files : ℕ
max_files = 128

-- A file that is read: the bytes ahead, and the mark of its end, which a `fread` sets that finds fewer
-- bytes than it asks for.
pub record Source : Type 0 where
  pub ahead : List ℕ
  pub eof : Bool

-- `fread` of the C library into a buffer.
abbrev pub fread : ℕ → Source → List ℕ × Source
fread n source = (
  take n source.ahead,
  record {
    ahead = drop n source.ahead;
    eof = if ltb (length source.ahead) n then true else source.eof;
  },
)

-- `write_file`, on fuel: what is written to the target.
unfoldable pub write_file : ℕ → List ℕ → Source → Option (List ℕ)
write_file zero target source = none
write_file (suc fuel) target source =
    let (read, source') = fread buffer_size source in
    let rest = write_file fuel (target ++ read) source' in if source.eof then some target else rest

-- An `int` or `uint32_t` as `fwrite` puts it, the lowest byte first.
abbrev pub bytes32 : ℕ → List ℕ
bytes32 n = n % 256 ∷ n / 256 % 256 ∷ n / 2 ^ 16 % 256 ∷ n / 2 ^ 24 % 256 ∷ []

-- The files by name: none where there is no file that can be read.
abbrev pub Files : Type 0
Files = ℕ → Option (List ℕ)

abbrev pub opened : List ℕ → Source
opened content = record { ahead = content; eof = false }

-- `write_size`
unfoldable pub write_size : Files → List ℕ → ℕ → Option (List ℕ)
write_size files target name = do content ← files name; some (target ++ bytes32 (length content))

-- The loop of `buildImage` over the files behind the kernel. A file that cannot be opened is not seen
-- here: the code reads it all the same.
unfoldable pub append_modules : (fuel : ℕ) → Files → List ℕ → List ℕ → Option (List ℕ)
unfolding write_size write_file
append_modules fuel files target [] = some target
append_modules fuel files target (name ∷ names) = do
  content ← files name
  sized ← write_size files target name
  written ← write_file fuel sized (opened content)
  append_modules fuel files written names

-- `buildImage` of the files with the given names, when the output can be created.
unfoldable pub build_image : (fuel : ℕ) → Files → List ℕ → Option (List ℕ)
unfolding write_file append_modules
build_image fuel files [] = none
build_image fuel files (kernel ∷ names) = do
  content ← files kernel
  target ← write_file fuel [] (opened content)
  append_modules fuel files (target ++ bytes32 (length names)) names

-- `checkFiles`
unfoldable pub check_files : Files → List ℕ → Bool
check_files files [] = true
check_files files (name ∷ names) =
    let rest = check_files files names in elim (files name) [ none ↦ false | some content ↦ rest ]

-- What the parser of arguments has stored.
pub record Arguments : Type 0 where
  pub args : List ℕ
  pub output_file : ℕ
  pub count : ℕ

-- The keys that `argp_parse` calls `parse_opt` with: an option `o`, the argument number `arg_num`, the end
-- after `arg_num` arguments, and others.
pub data Key : Type 0 where
  option_o : (arg : ℕ) → Key
  key_arg : (arg_num arg : ℕ) → Key
  key_end : (arg_num : ℕ) → Key
  other : Key

-- `parse_opt` goes on, exits with the usage, refuses the key, or writes behind the array.
pub data Parsed : Type 0 where
  parsed : Arguments → Parsed
  usage unknown outside : Parsed

abbrev pub store_arg : List ℕ → (arg_num arg : ℕ) → List ℕ
store_arg args arg_num arg = take arg_num args ++ (arg ∷ drop (suc arg_num) args)

-- `parse_opt`
unfoldable pub parse_opt : Key → Arguments → Parsed
parse_opt (option_o arg) a = parsed (record a { output_file = arg })
parse_opt (key_arg arg_num arg) a =
    if ltb arg_num max_files
    then parsed (record a { args = store_arg a.args arg_num arg })
    else outside
parse_opt (key_end arg_num) a =
    if ltb arg_num 1 then usage else parsed (record a { count = arg_num })
parse_opt other a = unknown

-- `main` once the arguments are parsed: the exit status, and what is in the output, when the run ends.
unfoldable pub pack :
    (fuel : ℕ) → Files → (created : Bool) → Arguments → Option (ℕ × Option (List ℕ))
unfolding check_files build_image
pack fuel files created a =
    let names = take a.count a.args in
    if not (check_files files names)
    then some (1, none)
    else if not created
    then some (1, none)
    else (do image ← build_image fuel files names; some (0, some image))
