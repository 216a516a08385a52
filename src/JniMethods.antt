-- ===== src/JniMethods.antt =====
-- The tables of src/libzygisk/src/jni_hooks.hpp: for each variant of the three JNI methods that Zygisk
-- replaces, its name, its signature, and the arguments that its replacement notes for the modules.
use zygisk_magisk_module.Prelude.{ℕ, ℤ, Bool, Option, none, some, List, [], ◌∷◌, ◌++◌}
use zygisk_magisk_module.World.{
  Text, text, AppSpecializeArgs, ServerSpecializeArgs, Args, app, server,
}

-- The arguments of a call that Zygisk looks at; a method has those that its signature says.
pub record JniArgs : Type 0 where
  pub uid : ℤ
  pub gid : ℤ
  pub gids : ℕ
  pub runtime_flags : ℤ
  pub rlimits : ℕ
  pub mount_external : ℤ
  pub se_info : ℕ
  pub nice_name : ℕ
  pub instruction_set : ℕ
  pub app_data_dir : ℕ
  pub fds_to_ignore : Option (List ℤ)
  pub is_child_zygote : Bool
  pub is_top_app : Bool
  pub pkg_data_info_list : ℕ
  pub whitelisted_data_info_list : ℕ
  pub mount_data_dirs : Bool
  pub mount_storage_dirs : Bool
  pub mount_sysprop_overrides : Bool
  pub permitted_capabilities : ℤ
  pub effective_capabilities : ℤ

-- A JNINativeMethod of the table: its name, its signature, and the arguments that it notes.
pub record Method : Type 0 where
  pub name : Text
  pub signature : Text
  pub noted : JniArgs → Args

-- The constructor of AppSpecializeArgs_v5.
abbrev pub app_args : JniArgs → AppSpecializeArgs
app_args j = record {
  uid = j.uid;
  gid = j.gid;
  gids = j.gids;
  runtime_flags = j.runtime_flags;
  rlimits = j.rlimits;
  mount_external = j.mount_external;
  se_info = j.se_info;
  nice_name = j.nice_name;
  instruction_set = j.instruction_set;
  app_data_dir = j.app_data_dir;
  fds_to_ignore = none;
  is_child_zygote = none;
  is_top_app = none;
  pkg_data_info_list = none;
  whitelisted_data_info_list = none;
  mount_data_dirs = none;
  mount_storage_dirs = none;
  mount_sysprop_overrides = none;
}

-- The assignments `args.x = &x`, each for those methods whose signature has the argument.
abbrev with_fds_to_ignore : JniArgs → AppSpecializeArgs → AppSpecializeArgs
with_fds_to_ignore j a = record a { fds_to_ignore = some j.fds_to_ignore }

abbrev with_child_zygote : JniArgs → AppSpecializeArgs → AppSpecializeArgs
with_child_zygote j a = record a { is_child_zygote = some j.is_child_zygote }

abbrev with_top_app : JniArgs → AppSpecializeArgs → AppSpecializeArgs
with_top_app j a = record a { is_top_app = some j.is_top_app }

abbrev with_data_dirs : JniArgs → AppSpecializeArgs → AppSpecializeArgs
with_data_dirs j a = record a {
  pkg_data_info_list = some j.pkg_data_info_list;
  whitelisted_data_info_list = some j.whitelisted_data_info_list;
  mount_data_dirs = some j.mount_data_dirs;
  mount_storage_dirs = some j.mount_storage_dirs;
}

abbrev with_sysprop_overrides : JniArgs → AppSpecializeArgs → AppSpecializeArgs
with_sysprop_overrides j a = record a { mount_sysprop_overrides = some j.mount_sysprop_overrides }

abbrev pub server_args : JniArgs → ServerSpecializeArgs
server_args j = record {
  uid = j.uid;
  gid = j.gid;
  gids = j.gids;
  runtime_flags = j.runtime_flags;
  permitted_capabilities = j.permitted_capabilities;
  effective_capabilities = j.effective_capabilities;
}

-- The variants of AOSP.
pub aosp_fork_app_methods : List Method
aosp_fork_app_methods =
    -- nativeForkAndSpecialize_l
    record {
      name = text "nativeForkAndSpecialize";
      signature =
          text
            "(II[II[[IILjava/lang/String;Ljava/lang/String;[ILjava/lang/String;Ljava/lang/String;)I";
      noted = λ j. app (app_args j);
    }
    ∷
        -- nativeForkAndSpecialize_o
        record {
          name = text "nativeForkAndSpecialize";
          signature =
              text
                "(II[II[[IILjava/lang/String;Ljava/lang/String;[I[ILjava/lang/String;Ljava/lang/String;)I";
          noted = λ j. app (with_fds_to_ignore j (app_args j));
        }
    ∷
        -- nativeForkAndSpecialize_p
        record {
          name = text "nativeForkAndSpecialize";
          signature =
              text
                "(II[II[[IILjava/lang/String;Ljava/lang/String;[I[IZLjava/lang/String;Ljava/lang/String;)I";
          noted = λ j. app (with_child_zygote j (with_fds_to_ignore j (app_args j)));
        }
    ∷
        -- nativeForkAndSpecialize_q_alt
        record {
          name = text "nativeForkAndSpecialize";
          signature =
              text
                "(II[II[[IILjava/lang/String;Ljava/lang/String;[I[IZLjava/lang/String;Ljava/lang/String;Z)I";
          noted =
              λ j. app (with_top_app j (with_child_zygote j (with_fds_to_ignore j (app_args j))));
        }
    ∷
        -- nativeForkAndSpecialize_r
        record {
          name = text "nativeForkAndSpecialize";
          signature =
              text
                "(II[II[[IILjava/lang/String;Ljava/lang/String;[I[IZLjava/lang/String;Ljava/lang/String;Z[Ljava/lang/String;[Ljava/lang/String;ZZ)I";
          noted = λ j. app (
              with_data_dirs j
                (with_top_app j (with_child_zygote j (with_fds_to_ignore j (app_args j)))));
        }
    ∷
        -- nativeForkAndSpecialize_u
        record {
          name = text "nativeForkAndSpecialize";
          signature =
              text
                "(II[II[[IILjava/lang/String;Ljava/lang/String;[I[IZLjava/lang/String;Ljava/lang/String;Z[Ljava/lang/String;[Ljava/lang/String;ZZZ)I";
          noted = λ j. app (
              with_sysprop_overrides j (
                with_data_dirs j
                  (with_top_app j (with_child_zygote j (with_fds_to_ignore j (app_args j))))));
        }
    ∷
        -- nativeForkAndSpecialize_b
        record {
          name = text "nativeForkAndSpecialize";
          signature =
              text
                "(II[II[[IILjava/lang/String;Ljava/lang/String;[I[IZLjava/lang/String;Ljava/lang/String;ZZ[Ljava/lang/String;[Ljava/lang/String;ZZZ)I";
          noted = λ j. app (
              with_sysprop_overrides j (
                with_data_dirs j
                  (with_top_app j (with_child_zygote j (with_fds_to_ignore j (app_args j))))));
        }
    ∷ []

-- The variants of two makers of phones.
pub vendor_fork_app_methods : List Method
vendor_fork_app_methods =
    -- nativeForkAndSpecialize_samsung_m
    record {
      name = text "nativeForkAndSpecialize";
      signature =
          text
            "(II[II[[IILjava/lang/String;IILjava/lang/String;[ILjava/lang/String;Ljava/lang/String;)I";
      noted = λ j. app (app_args j);
    }
    ∷
        -- nativeForkAndSpecialize_samsung_n
        record {
          name = text "nativeForkAndSpecialize";
          signature =
              text
                "(II[II[[IILjava/lang/String;IILjava/lang/String;[ILjava/lang/String;Ljava/lang/String;I)I";
          noted = λ j. app (app_args j);
        }
    ∷
        -- nativeForkAndSpecialize_samsung_o
        record {
          name = text "nativeForkAndSpecialize";
          signature =
              text
                "(II[II[[IILjava/lang/String;IILjava/lang/String;[I[ILjava/lang/String;Ljava/lang/String;)I";
          noted = λ j. app (with_fds_to_ignore j (app_args j));
        }
    ∷
        -- nativeForkAndSpecialize_samsung_p
        record {
          name = text "nativeForkAndSpecialize";
          signature =
              text
                "(II[II[[IILjava/lang/String;IILjava/lang/String;[I[IZLjava/lang/String;Ljava/lang/String;)I";
          noted = λ j. app (with_child_zygote j (with_fds_to_ignore j (app_args j)));
        }
    ∷
        -- nativeForkAndSpecialize_nubia_u
        record {
          name = text "nativeForkAndSpecialize";
          signature =
              text
                "(II[II[[IILjava/lang/String;Ljava/lang/String;[I[IZLjava/lang/String;Ljava/lang/String;ZZ[Ljava/lang/String;[Ljava/lang/String;ZZZLjava/lang/String;)I";
          noted = λ j. app (
              with_sysprop_overrides j (
                with_data_dirs j
                  (with_top_app j (with_child_zygote j (with_fds_to_ignore j (app_args j))))));
        }
    ∷ []

abbrev pub fork_app_methods : List Method
fork_app_methods = aosp_fork_app_methods ++ vendor_fork_app_methods

pub specialize_app_methods : List Method
specialize_app_methods =
    -- nativeSpecializeAppProcess_q
    record {
      name = text "nativeSpecializeAppProcess";
      signature =
          text
            "(II[II[[IILjava/lang/String;Ljava/lang/String;ZLjava/lang/String;Ljava/lang/String;)V";
      noted = λ j. app (with_child_zygote j (app_args j));
    }
    ∷
        -- nativeSpecializeAppProcess_q_alt
        record {
          name = text "nativeSpecializeAppProcess";
          signature =
              text
                "(II[II[[IILjava/lang/String;Ljava/lang/String;ZLjava/lang/String;Ljava/lang/String;Z)V";
          noted = λ j. app (with_top_app j (with_child_zygote j (app_args j)));
        }
    ∷
        -- nativeSpecializeAppProcess_r
        record {
          name = text "nativeSpecializeAppProcess";
          signature =
              text
                "(II[II[[IILjava/lang/String;Ljava/lang/String;ZLjava/lang/String;Ljava/lang/String;Z[Ljava/lang/String;[Ljava/lang/String;ZZ)V";
          noted = λ j. app (with_data_dirs j (with_top_app j (with_child_zygote j (app_args j))));
        }
    ∷
        -- nativeSpecializeAppProcess_u
        record {
          name = text "nativeSpecializeAppProcess";
          signature =
              text
                "(II[II[[IILjava/lang/String;Ljava/lang/String;ZLjava/lang/String;Ljava/lang/String;Z[Ljava/lang/String;[Ljava/lang/String;ZZZ)V";
          noted = λ j. app (
              with_sysprop_overrides j
                (with_data_dirs j (with_top_app j (with_child_zygote j (app_args j)))));
        }
    ∷
        -- nativeSpecializeAppProcess_xr_u
        record {
          name = text "nativeSpecializeAppProcess";
          signature =
              text
                "(II[II[[IILjava/lang/String;Ljava/lang/String;ZLjava/lang/String;Ljava/lang/String;ZZ[Ljava/lang/String;[Ljava/lang/String;ZZ)V";
          noted = λ j. app (with_data_dirs j (with_top_app j (with_child_zygote j (app_args j))));
        }
    ∷
        -- nativeSpecializeAppProcess_samsung_q
        record {
          name = text "nativeSpecializeAppProcess";
          signature =
              text
                "(II[II[[IILjava/lang/String;IILjava/lang/String;ZLjava/lang/String;Ljava/lang/String;)V";
          noted = λ j. app (with_child_zygote j (app_args j));
        }
    ∷
        -- nativeSpecializeAppProcess_nubia_u
        record {
          name = text "nativeSpecializeAppProcess";
          signature =
              text
                "(II[II[[IILjava/lang/String;Ljava/lang/String;ZLjava/lang/String;Ljava/lang/String;Z[Ljava/lang/String;[Ljava/lang/String;ZZZLjava/lang/String;)V";
          noted = λ j. app (
              with_sysprop_overrides j
                (with_data_dirs j (with_top_app j (with_child_zygote j (app_args j)))));
        }
    ∷ []

pub fork_server_methods : List Method
fork_server_methods =
    -- nativeForkSystemServer_l
    record {
      name = text "nativeForkSystemServer";
      signature = text "(II[II[[IJJ)I";
      noted = λ j. server (server_args j);
    }
    ∷
        -- nativeForkSystemServer_samsung_q
        record {
          name = text "nativeForkSystemServer";
          signature = text "(II[IIII[[IJJ)I";
          noted = λ j. server (server_args j);
        }
    ∷ []
