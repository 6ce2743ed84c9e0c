-- ===== src/Filesys/Tests.antt =====
-- The file system of student-distrib/filesys.c on a small image.
use operating_system_ece.Common.{
  ℕ, ◌+◌, ◌≡◌, refl, inr, arith, [], ◌∷◌, pos_part, i32, min, Memory, memory_of, load32, write,
  IsBytes,
}
use operating_system_ece.Filesys.{dentry_count, file_size, read_dentry_by_name, read_data}
use operating_system_ece.Filesys.Names.{Found, read_dentry_by_name-Found}
use operating_system_ece.Filesys.Data.{IsApart, loaded, read_data-loaded}

-- An image at 65536 of a directory "." and a file "b" of the three bytes 10, 20 and 30, and the name
-- "b" at 200.
abbrev image : Memory
image = memory_of (
    (65536, 2)
    ∷ (65540, 1)
    ∷ (65600, 46)
    ∷ (65632, 1)
    ∷ (65664, 98)
    ∷ (65696, 2)
    ∷ (69632, 3)
    ∷ (73728, 10)
    ∷ (73729, 20)
    ∷ (73730, 30)
    ∷ (200, 98)
    ∷ [])

image-IsBytes : IsBytes image
image-IsBytes a = ground arith

size : file_size image 65536 0 ≡ 3
unfolding file_size load32
size = refl

count : dentry_count image 65536 ≡ 2
unfolding load32
count = refl

third_byte : (read_data image 65536 0 2 300 1).1 300 ≡ 30
unfolding read_data load32 write
third_byte = refl

-- One byte from offset 1, to a buffer at 300.
image-IsApart :
    IsApart image 65536 0 300
      (min (file_size image 65536 0) 1)
      (1 + min (file_size image 65536 0) 1)
image-IsApart = rw size (record {
  slots = λ k h. inr (omega arith);
  bytes = λ j h. inr (unfold load32 in (omega arith));
})

read_data-loaded_example :
    let (n, m') = read_data image 65536 0 1 300 1 in
    (n ≡ min (file_size image 65536 0) 1)
    × ((a : ℕ) → m' a ≡ loaded image 65536 0 1 300 (min (file_size image 65536 0) 1) a)
read_data-loaded_example =
    read_data-loaded image 65536 0 1 300 1 refl (rw size (omega arith)) image-IsApart

read_dentry_by_name-Found_example :
    Found image 65536
      (pos_part (i32 (dentry_count image 65536)))
      200
      400
      (read_dentry_by_name image 65536 200 400)
read_dentry_by_name-Found_example =
    read_dentry_by_name-Found image 65536 200 400 image-IsBytes (omega arith) (omega arith)
