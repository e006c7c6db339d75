-- ===== src/Tests/Ending.antt =====
-- An instance of the theorem that the compiler's generators end, on a schema with two services.
use smurf.Prelude.{◌≡◌, refl, true, some, [], codes, arith}
use smurf.Smfc.Printer.Substitution.{escapes}
use smurf.Smfc.Plain.{NoEscape, PlainStruct}
use smurf.Smfc.Plain.Schema.{PlainDef, PlainSchema}
use smurf.Smfc.Codegen.{Platform, Codegen, Status, parse, gen}
use smurf.Smfc.Codegen.Ends.{gen_ends}
use smurf.Tests.Instances.{toy_hash}
use smurf.Tests.Printing.{schema, storage, request}
use smurf.Tests.Driving.{Disk, sys, disk, fresh, parsed}

-- A library whose parser finds the two services in every text
abbrev storing : Platform Disk
storing = record sys { parse = λ text includes name p. (true, record parsed { schema = schema }) }

demo-NoEscape : NoEscape (codes "demo")
unfolding escapes
demo-NoEscape = record { none_there = refl }

request-PlainStruct : PlainStruct request
unfolding escapes
request-PlainStruct = record {
  name = record { none_there = refl };
  components = (demo-NoEscape, tt);
}

storage-PlainDef : PlainDef storage
unfolding escapes
storage-PlainDef = record {
  name = record { none_there = refl };
  components = (demo-NoEscape, tt);
  calls = (
    record {
      name = record { none_there = refl };
      request = request-PlainStruct;
      response = request-PlainStruct;
    },
    tt,
  );
}

schema-PlainSchema : PlainSchema schema
unfolding escapes
schema-PlainSchema = record {
  input_filename = record { none_there = refl };
  without_ext = demo-NoEscape;
  package_parts = (demo-NoEscape, tt);
  included_files = (record { none_there = refl }, tt);
  service_defs = (storage-PlainDef, (storage-PlainDef, tt));
}

gen_ends_example : (r : Status × Codegen × Disk) × (gen storing toy_hash 8 fresh disk ≡ some r)
unfolding parse
gen_ends_example =
    gen_ends storing toy_hash 8 fresh disk (codes "demo") [] (omega arith) schema-PlainSchema refl
