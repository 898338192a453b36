-- ===== src/Modules/Tests.antt =====
-- Two modules, packed behind a kernel of two bytes, and loaded to 400 and 500.
use dog_os.Prelude.{
  ℕ, ◌≡◌, refl, none, some, List, [], ◌∷◌, arith, ◌==◌, if◌then◌else◌, ◌-◌, get_or, ltb, ◌%◌,
}
use dog_os.Modules.{Machine}
use dog_os.Modules.Packer.{Files, build_image, write_file, append_modules, write_size}
use dog_os.Modules.Packer.Image.{build_image-records}
use dog_os.Modules.Bytes.{Holds}

abbrev pub files : Files
files name =
    if name == 0
    then some (1 ∷ 2 ∷ [])
    else if name == 1
    then some (7 ∷ 8 ∷ 9 ∷ [])
    else if name == 2
    then some (5 ∷ [])
    else none

abbrev pub image : List ℕ
image = 1 ∷ 2 ∷ 2 ∷ 0 ∷ 0 ∷ 0 ∷ 3 ∷ 0 ∷ 0 ∷ 0 ∷ 7 ∷ 8 ∷ 9 ∷ 1 ∷ 0 ∷ 0 ∷ 0 ∷ 5 ∷ []

abbrev pub machine : Machine
machine = record {
  memory = λ a. if ltb a 256 then 0 else get_or image (a - 256) 0 % 256;
  console = record { current_video = 0; video = λ a. 0 };
}

build_image-records_example : build_image 3 files (0 ∷ 1 ∷ 2 ∷ []) ≡ some image
build_image-records_example =
    build_image-records 3 files 0 (1 ∷ 2 ∷ []) (1 ∷ 2 ∷ []) ((7 ∷ 8 ∷ 9 ∷ []) ∷ (5 ∷ []) ∷ [])
      (refl, (refl, (refl, tt))) (omega arith, (omega arith, (omega arith, tt)))

pub built : build_image 3 files (0 ∷ 1 ∷ 2 ∷ []) ≡ some image
unfolding build_image write_file append_modules write_size
built = refl

pub image_there : Holds machine.memory 256 image
image_there = (
  refl,
  (
    refl,
    (
      refl,
      (
        refl,
        (
          refl,
          (
            refl,
            (
              refl,
              (
                refl,
                (refl, (refl, (refl, (refl, (refl, (refl, (refl, (refl, (refl, (refl, tt)))))))))),
              ),
            ),
          ),
        ),
      ),
    ),
  ),
)
