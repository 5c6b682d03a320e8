-- ===== src/Services/Namespace/Tests.antt =====
-- services/namespace.c: a file is created, opened, written and read.
use spirit_fox_os.Services.Namespace.Rights.{NoHandle, GrantOk}
use spirit_fox_os.Services.Namespace.Rights.Openat.{ns_openat-GrantOk}
use spirit_fox_os.Prelude.{
  ℕ, ◌≡◌, refl, true, false, List, [], ◌∷◌, none, sf_ok, zeros, length-zeros, arith, ℤ, some, pos,
}
use spirit_fox_os.Services.Namespace.Paths.{
  ns_path_ok, parent_path, relative_ok, relative_path, beneath,
}
use spirit_fox_os.Services.Namespace.Table.{
  Namespace, Node, Description, ns_create, no_node, description_of, node_file, node_find,
  no_description, parent_code, no_handle, handle_new,
}
use spirit_fox_os.Services.Namespace.Open.{
  open_at, ns_close, ns_openat, widens, ns_open, open_code, node_code, open_at,
}
use spirit_fox_os.Services.Namespace.Data.{Backend}
use spirit_fox_os.Services.Namespace.Stale.Forever.{ns_close-forever, perform_all, dup, open_call}
use spirit_fox_os.Services.Namespace.Content.{ReadBack, write_reply-ReadBack}

-- "/a"
abbrev path_a : List ℕ
path_a = 47 ∷ 97 ∷ []

abbrev no_backend : Backend
no_backend = record {
  console = none;
  external_read = none;
  external_write = none;
  external_truncate = none;
}

abbrev root_node : Node
root_node = record no_node { path = 47 ∷ []; kind = 1 }

-- The root, open once by process 1, with a second handle that is free.
abbrev opened : Namespace
opened = record {
  nodes = root_node ∷ no_node ∷ [];
  descriptions = record { node = 0; offset = 0; mode = 1; refs = 1 } ∷ no_description ∷ [];
  handles = record { owner = 1; generation = 1; description = 1 } ∷ no_handle ∷ [];
}

paths-run : (ns_path_ok (47 ∷ 195 ∷ 169 ∷ []) ≡ true) × (ns_path_ok (47 ∷ 46 ∷ 46 ∷ []) ≡ false)
unfolding ns_path_ok
paths-run = (refl, refl)

create-run : (ns_create opened path_a 2 false).0 ≡ sf_ok
unfolding ns_create ns_path_ok node_find parent_code parent_path
create-run = refl

closed : (ns_close opened 1 257).0 ≡ sf_ok
unfolding ns_close description_of
closed = refl

-- The closed handle 257, after its slot was used again.
ns_close-forever_example :
    description_of
      (perform_all no_backend none
        (ns_close opened 1 257).1
        (open_call 1 (47 ∷ []) (47 ∷ []) 1 ∷ dup 1 513 ∷ []))
      1
      257
    ≡ none
ns_close-forever_example =
    ns_close-forever no_backend none opened 1 257 closed
      (open_call 1 (47 ∷ []) (47 ∷ []) 1 ∷ dup 1 513 ∷ []) 1

abbrev file_node : Node
file_node = record no_node { path = path_a; kind = node_file; bytes = zeros 1024 }

abbrev read_write : Description
read_write = record { node = 1; offset = 10; mode = 3; refs = 1 }

write_reply-ReadBack_example : ReadBack no_backend (5 ∷ 6 ∷ []) file_node read_write 2
write_reply-ReadBack_example =
    write_reply-ReadBack no_backend (5 ∷ 6 ∷ []) file_node read_write refl refl refl refl
      (length-zeros 1024) (omega arith) (omega arith) (omega arith)

no_callback : NoHandle sf_ok
unfolding NoHandle
no_callback z = absurd (cc z)

-- The root with a file in it.
abbrev with_file : Namespace
with_file = record opened { nodes = root_node ∷ file_node ∷ [] }

abbrev granted_file : ℤ × Namespace
granted_file = ns_openat none with_file 1 257 (97 ∷ []) 1

granted_file-code : granted_file.0 ≡ pos 258
unfolding ns_openat description_of relative_ok relative_path ns_path_ok ns_open open_code beneath
    node_find node_code open_at handle_new
granted_file-code = refl

root_named : description_of with_file 1 257 ≡ some 0
unfolding description_of
root_named = refl

ns_openat-GrantOk_example :
    (widens 1 1 ≡ false) × GrantOk granted_file.1 1 258 1 (relative_path (47 ∷ []) (97 ∷ []))
ns_openat-GrantOk_example =
    ns_openat-GrantOk with_file 1 258 1 (omega arith) none (λ tag. no_callback) 257 0 (97 ∷ [])
      root_named granted_file-code
