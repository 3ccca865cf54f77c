-- ===== src/DeepCopy.antt =====
-- api/v1beta1/zz_generated.deepcopy.go: the deep copies of the API types, on a heap.
pub mod Heap
pub mod Copied
pub mod Pointers
pub mod Template
pub mod TemplatePointer
pub mod Spec
pub mod SpecCopied
pub mod Frame
pub mod Separate
pub mod Objects
pub mod StatusCopied
pub mod ObjectCopied
pub mod ItemsCopied
pub mod Entry
