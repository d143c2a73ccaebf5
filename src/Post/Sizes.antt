-- ===== src/Post/Sizes.antt =====
-- src/post.hpp: namespace sz, the sizes used to generate multimedia paths.
use occase.Base.{ℕ, ◌+◌}

abbrev pub a : ℕ
a = 1

abbrev pub b : ℕ
b = 1

abbrev pub c : ℕ
c = 2

abbrev pub d : ℕ
d = 4

abbrev pub mms_filename_size : ℕ
mms_filename_size = a + b + c + d

abbrev pub mms_dir_size : ℕ
mms_dir_size = 3 + a + b + c
