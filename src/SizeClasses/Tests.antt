-- ===== src/SizeClasses/Tests.antt =====
-- The size classes of some sizes.
use ukoos.Prelude.{◌≡◌, refl, arith, ok, Yields}
use ukoos.SizeClasses.{size_class_of_size}
use ukoos.SizeClasses.Fit.{Fits, size_class_of_size-Fits}

class_of_100 : size_class_of_size 100 ≡ ok 4
unfolding size_class_of_size
class_of_100 = refl

class_of_largest : size_class_of_size 524288 ≡ ok 16
unfolding size_class_of_size
class_of_largest = refl

size_class_of_size-Fits_example : Yields (size_class_of_size 100) (Fits 100)
size_class_of_size-Fits_example = size_class_of_size-Fits 100 (omega arith)
