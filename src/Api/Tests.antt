-- ===== src/Api/Tests.antt =====
-- pkg/apis/v1alpha1: deep copies in a small memory.
use jitdi.Base.{
  ℕ, ◌<◌, refl, arith, false, Option, none, some, List, [], ◌∷◌, Bytes, codes, if◌then◌else◌, ◌==◌,
}
use jitdi.Exec.{pure}
use jitdi.Config.{File, Platform, BaseAuth}
use jitdi.Api.{Types, Condition, Mutate, Image, ImageList, Authentication, Registry, RegistryList}
use jitdi.Api.Memory.{
  Library, Kind, Cell, other, in_memory, file, mutates, images, image_list, base_auth,
  authentication, registries, registry_list, image_list_cell, registry_list_cell,
}
use jitdi.Api.DeepCopy.{
  M, LibraryCopies, copy_pointer, image_list_deep_copy_object, registry_list_deep_copy_object,
}
use jitdi.Api.DeepCopy.Copies.{Memory, Plain}
use jitdi.Api.DeepCopy.Parts.{Pointed, plain-IsCopy, copy_pointer-IsCopy, IsApart}
use jitdi.Api.DeepCopy.Meaning.{Meaning, CopiesDeeply, in_full, ImageListFor, RegistryListFor}
use jitdi.Api.DeepCopy.Apart.{image_list_deep_copy-IsApart, registry_list_deep_copy-IsApart}

-- The metadata of an object is its labels, behind a pointer.
abbrev Labels : Type 0
Labels = List (Bytes × Bytes)

abbrev library : Library
library = record {
  TypeMeta = Bytes;
  Time = ℕ;
  ObjectMeta = Option ℕ;
  ListMeta = Bytes;
  Other = Labels;
}

abbrev labels_of : Cell (in_memory library) Labels → Option Labels
labels_of (other l) = some l
labels_of _ = none

abbrev labels_cell : Kind (in_memory library) Labels Labels
labels_cell = record { put = other; get = labels_of; get-put = λ a. refl }

abbrev copy_labels : Labels → M library Labels
copy_labels l = pure l

abbrev copies : LibraryCopies library
copies = record {
  copy_time = λ t. t;
  copy_object_meta = copy_pointer labels_cell copy_labels;
  copy_list_meta = λ l. pure l;
}

abbrev meaning : Meaning library
meaning = record {
  ObjectMeta = Option Labels;
  ListMeta = Bytes;
  object_meta = Pointed library (Plain library) labels_cell;
  list_meta = Plain library;
}

copies-CopiesDeeply : CopiesDeeply library meaning copies
copies-CopiesDeeply = record {
  time = λ t. refl;
  object_meta =
      copy_pointer-IsCopy library (Plain library) copy_labels
        (plain-IsCopy library copy_labels (λ x. refl)) labels_cell;
  list_meta = plain-IsCopy library (λ l. pure l) (λ x. refl);
}

abbrev a_file : File
a_file = record { source = codes "s"; destination = codes "d"; mode = [] }

abbrev some_labels : Labels
some_labels = (codes "app", codes "jitdi") ∷ []

-- An image of one mutation, with addresses or with what they hold.
abbrev image_with :
    (T : Types)
    → T.TypeMeta
    → T.ObjectMeta
    → T.Ptr (List (Mutate T))
    → ((A : Type 0) → T.Ptr A)
    → Image T
image_with T t o ms nil = record {
  type_meta = t;
  object_meta = o;
  spec = record {
    match = codes "nginx:{tag}";
    base_image = codes "nginx";
    mutates = ms;
    platforms = nil (List Platform);
  };
  status = record { conditions = nil (List (Condition T)) };
}

abbrev registry_with :
    (T : Types)
    → T.TypeMeta
    → T.ObjectMeta
    → T.Ptr (Authentication T)
    → ((A : Type 0) → T.Ptr A)
    → Registry T
registry_with T t o auth nil = record {
  type_meta = t;
  object_meta = o;
  spec = record { endpoint = codes "docker.io"; insecure = false; authentication = auth };
  status = record { conditions = nil (List (Condition T)) };
}

abbrev an_auth : BaseAuth
an_auth = record { username = codes "u"; password = codes "p" }

abbrev H : Types
H = in_memory library

abbrev F : Types
F = in_full library meaning

-- An image list, its images, their mutations, the file of one and the labels; then a list of
-- registries down to the credentials of one.
abbrev held : ℕ → Cell H Labels
held p =
    if p == 0
    then image_list (record { type_meta = codes "v1"; list_meta = []; items = some 1 })
    else if p == 1
    then images (image_with H (codes "v1") (some 4) (some 2) (λ A. none) ∷ [])
    else if p == 2
    then mutates (record { file = some 3; ollama = none } ∷ [])
    else if p == 3
    then file a_file
    else if p == 5
    then registry_list (record { type_meta = codes "v1"; list_meta = []; items = some 6 })
    else if p == 6
    then registries (registry_with H (codes "v1") (some 4) (some 7) (λ A. none) ∷ [])
    else if p == 7
    then authentication (record { base_auth = some 8 })
    else if p == 8
    then base_auth an_auth
    else other some_labels

abbrev memory : Memory library
memory = record { next = 9; cells = held }

abbrev listed : ImageList F
listed = record {
  type_meta = codes "v1";
  list_meta = [];
  items = some (
      image_with F (codes "v1") (some some_labels)
        (some (record { file = some a_file; ollama = none } ∷ [])) (λ A. none)
      ∷ []);
}

abbrev junk : ℕ → Cell H Labels
junk p = other []

memory-listed :
    Pointed library
      (ImageListFor library meaning)
      image_list_cell
      (λ p. p < 9)
      memory
      (some 0)
      (some listed)
memory-listed = (
  omega arith,
  record { type_meta = codes "v1"; list_meta = []; items = some 1 },
  refl,
  (
    refl,
    refl,
    (
      omega arith,
      image_with H (codes "v1") (some 4) (some 2) (λ A. none) ∷ [],
      refl,
      (
        (
          refl,
          (omega arith, some_labels, refl, refl),
          (
            refl,
            refl,
            (
              omega arith,
              record { file = some 3; ollama = none } ∷ [],
              refl,
              (((omega arith, a_file, refl, refl), tt), tt),
            ),
            tt,
          ),
          tt,
        ),
        tt,
      ),
    ),
  ),
)

image_list_deep_copy-IsApart_example :
    IsApart library
      (ImageListFor library meaning)
      image_list_cell
      9
      0
      listed
      junk
      (image_list_deep_copy_object copies (some 0) memory)
image_list_deep_copy-IsApart_example =
    image_list_deep_copy-IsApart library meaning copies copies-CopiesDeeply memory 0 listed junk
      memory-listed

abbrev registered : RegistryList F
registered = record {
  type_meta = codes "v1";
  list_meta = [];
  items = some (
      registry_with F (codes "v1") (some some_labels) (some (record { base_auth = some an_auth }))
        (λ A. none)
      ∷ []);
}

memory-registered :
    Pointed library
      (RegistryListFor library meaning)
      registry_list_cell
      (λ p. p < 9)
      memory
      (some 5)
      (some registered)
memory-registered = (
  omega arith,
  record { type_meta = codes "v1"; list_meta = []; items = some 6 },
  refl,
  (
    refl,
    refl,
    (
      omega arith,
      registry_with H (codes "v1") (some 4) (some 7) (λ A. none) ∷ [],
      refl,
      (
        (
          refl,
          (omega arith, some_labels, refl, refl),
          (
            refl,
            refl,
            (omega arith, record { base_auth = some 8 }, refl, (omega arith, an_auth, refl, refl)),
          ),
          tt,
        ),
        tt,
      ),
    ),
  ),
)

registry_list_deep_copy-IsApart_example :
    IsApart library
      (RegistryListFor library meaning)
      registry_list_cell
      9
      5
      registered
      junk
      (registry_list_deep_copy_object copies (some 5) memory)
registry_list_deep_copy-IsApart_example =
    registry_list_deep_copy-IsApart library meaning copies copies-CopiesDeeply memory 5 registered
      junk memory-registered
