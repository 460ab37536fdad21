-- ===== src/Examples/Scripts.antt =====
-- File comparison, certificate inspection, the size test server and the indentation script at
-- concrete inputs.
use public_trash.Base.{
  ◌⊎◌, ◌+◌, ◌≤◌, ◌≡◌, refl, true, false, if◌then◌else◌, List, [], ◌∷◌, ◌++◌, map, length, replicate,
  get_elem?, none, some, ok, raise, file_not_found, arith,
}
use public_trash.Base.Words.{Bytes}
use public_trash.Base.Texts.{Text, codes, text_eq, strip}
use public_trash.FileCompare.{Load}
use public_trash.CertInspect.{split_pem_blocks}
use public_trash.CertInspect.Pem.{Block, with_blocks, found, split_pem_blocks-with_blocks}
use public_trash.CertInspect.Load.{Package}
use public_trash.SizeServer.{sent, is_set, sender}
use public_trash.SizeServer.Sizes.{sender-block}
use public_trash.SizeServer.Handler.{
  Handler, handle_connection, sent_block, calling, ended, send_enters, recv_enters, send_returns,
  recv_fails, send_leaves, Move, Run, no_step, one_more,
}
use public_trash.SizeServer.Handler.Ends.{
  IsOrderly, Returns, handle_connection-IsOrderly, handle_connection-ends,
}
use public_trash.Indentation.{pos, correct_lines}
use public_trash.Indentation.Kept.{kept, strip-correct_lines}

-- Three files, of which two differ in their line ends only; another path leads nowhere.
abbrev files : Load
files path =
    if text_eq path (codes "a")
    then ok (codes "x\r\n")
    else if text_eq path (codes "b")
    then ok (codes "y")
    else if text_eq path (codes "c")
    then ok (codes "x\n")
    else raise file_not_found

abbrev paths : List Text
paths = codes "a" ∷ codes "b" ∷ codes "no" ∷ codes "c" ∷ []

abbrev list_file : List Text
list_file = codes "a\n" ∷ codes " b\n" ∷ codes "\n" ∷ codes "no\n" ∷ codes "c" ∷ []

-- Two blocks, of which the first ends by another label.
abbrev blocks : List Block
blocks =
    (record {
      gap = codes "x\n";
      label = codes "CRL";
      body = codes "\nMII=\n";
      end_label = codes "X509 CRL";
    })
    ∷ (record {
      gap = codes "\n";
      label = codes "KEY";
      body = codes "\nAAA\n";
      end_label = codes "KEY";
    })
    ∷ []

split_pem_blocks-with_blocks_example :
    split_pem_blocks (with_blocks blocks (codes "\n")) ≡ found blocks
split_pem_blocks-with_blocks_example =
    split_pem_blocks-with_blocks blocks (codes "\n")
      (
        record {
          gap = omega arith;
          label = ground arith;
          body = omega arith;
          end_label = ground arith;
        },
        (
          record {
            gap = omega arith;
            label = ground arith;
            body = omega arith;
            end_label = ground arith;
          },
          tt,
        ),
      )
      (omega arith)

-- A package that loads no certificate and a store with a key.
abbrev no_certificates : Package
no_certificates = record {
  have_pkcs7 = true;
  load_pem_certificate = λ _. false;
  load_pem_crl = λ _. true;
  load_pem_private_key = λ _. false;
  load_pem_pkcs7 = λ _. some 2;
  load_der_certificate = λ _. false;
  load_der_crl = λ _. false;
  load_der_pkcs7 = λ _. none;
  load_key_and_certificates = λ _ _. some (record { key = true; cert = false; additional = 0 });
}

-- The twelfth block has the size of the second.
sender-block_example :
    (block : Bytes) × (get_elem? (sender (replicate 12 sent ++ is_set ∷ [])).0 11 ≡ some block)
    × (length block ≡ 20)
    × (length block ≤ 5120)
    × (get_elem? block 4 ≡ some 5)
sender-block_example = sender-block 11 4 (is_set ∷ []) (omega arith)

-- A class with a blank line behind it and a line that is indented too far.
abbrev script : List Text
script =
    codes "class A:" ∷ codes "  " ∷ codes "        parser = 1 " ∷ codes "{" ∷ codes "int a;" ∷ []

strip-correct_lines_example :
    map strip (
      correct_lines
        (record { indent_level = pos 0; inside_struct = false; was_class = false })
        script)
    ≡ kept false (map strip script)
strip-correct_lines_example =
    strip-correct_lines (record { indent_level = pos 0; inside_struct = false; was_class = false })
      script

-- Both threads enter their calls and the receiver fails; then the sender sends its block and
-- leaves.
abbrev both_calling : Handler
both_calling = record handle_connection { send_phase = calling; recv_phase = calling }

abbrev receiver_failed : Handler
receiver_failed = record both_calling { is_shutdown = true; recv_phase = ended }

abbrev sender_left : Handler
sender_left = record (sent_block receiver_failed) { send_phase = ended }

first_steps : Run 3 handle_connection receiver_failed
unfolding handle_connection
first_steps =
    one_more (send_enters refl refl)
      (one_more (recv_enters refl refl) (one_more (recv_fails refl) no_step))

last_steps : Run 2 receiver_failed sender_left
unfolding sent_block
last_steps = one_more (send_returns refl) (one_more (send_leaves refl refl) no_step)

handle_connection-IsOrderly_example : IsOrderly receiver_failed
handle_connection-IsOrderly_example = handle_connection-IsOrderly first_steps

handle_connection-ends_example :
    (2 ≤ 4)
    × (length sender_left.blocks ≤ length receiver_failed.blocks + 1)
    × (Returns sender_left ⊎ ((next : Handler) × Move sender_left next))
handle_connection-ends_example = handle_connection-ends last_steps refl
