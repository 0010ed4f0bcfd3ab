-- ===== src/Gtk/Register.antt =====
-- `g_type_register_static_simple` of src/gtksudoku.c, which a build for an old library has in place
-- of the library's own. Functions and types are numbers, by which the library knows them; `none` is
-- the null pointer. `g_type_register_static` is an argument.
use gtksudoku.Prelude.{ℕ, Option, none}

-- `GTypeInfo`
pub record GTypeInfo : Type 0 where
  pub class_size : ℕ
  pub base_init : Option ℕ
  pub base_finalize : Option ℕ
  pub class_init : Option ℕ
  pub class_finalize : Option ℕ
  pub class_data : Option ℕ
  pub instance_size : ℕ
  pub n_preallocs : ℕ
  pub instance_init : Option ℕ
  pub value_table : Option ℕ

module _ {ℓ} {GType Name Flags : Type ℓ}
    (register_static : GType → Name → GTypeInfo → Flags → GType) where
  unfoldable pub register_static_simple : GType → Name → ℕ → Option ℕ → ℕ → Option ℕ → Flags → GType
  register_static_simple parent_type type_name class_size class_init instance_size instance_init
        flags =
      let info : GTypeInfo = record {
        class_size = class_size;
        base_init = none;
        base_finalize = none;
        class_init = class_init;
        class_finalize = none;
        class_data = none;
        instance_size = instance_size;
        n_preallocs = 0;
        instance_init = instance_init;
        value_table = none;
      } in
      register_static parent_type type_name info flags
