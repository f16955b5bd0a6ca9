-- ===== src/Store/Errors.antt =====
-- src/store/mod.rs, `StoreError`. The texts and the wrapped errors that some variants carry for
-- display are left out; an I/O error keeps its kind.
pub data IoKind : Type 0 where
  not_found invalid_input already_exists other : IoKind

pub data StoreError : Type 0 where
  io : IoKind → StoreError
  age frost serialize json sqlite manifest identity schema no_home_dir : StoreError
