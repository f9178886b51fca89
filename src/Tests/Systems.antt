-- ===== src/Tests/Systems.antt =====
-- Systems: the theorems of Streams, Ec2 and Testing at concrete inputs.
use bigmachine.Prelude.{◌≡◌, refl, true, false, none, some, [], ◌∷◌, ◌++◌, Text, codes, arith}
use bigmachine.Streams.Tee.{Target, write, write_all, copy, copy-write_all}
use bigmachine.Streams.Readers.{Reader, ClosingReader, SizeReader, FaultInjector}
use bigmachine.Machine.Retry.{ok}
use bigmachine.Streams.FileBuf.{Fill, Disk}
use bigmachine.Ec2.{CloudUnit, CloudConfig, ubuntu}
use bigmachine.Testing.{System, new, start}
use bigmachine.Tests.Samples.{SampleErr, sample_errors}

abbrev target : Target
target = record { pending = none; copied = [] }

copy-write_all_example :
    (copy (write_all 4 (codes "abc" ∷ codes "de" ∷ []) target)).copied ≡ codes "bcde"
unfolding write_all write
copy-write_all_example =
    copy-write_all 4 (codes "abc" ∷ codes "de" ∷ []) target refl (omega arith, (omega arith, tt))

abbrev body : Reader SampleErr
body = record {
  script = (codes "ab", none) ∷ (codes "c", some sample_errors.eof) ∷ [];
  reads = 0;
  closes = 0;
}

abbrev closing : ClosingReader SampleErr
closing = record { rc = body; closed = false }

abbrev sized : SizeReader SampleErr
sized = record { reader = body; n = 0 }

abbrev faulty : FaultInjector SampleErr
faulty = record { label = codes "l"; source = body; is_open = true; error = none }

abbrev dropped : FaultInjector SampleErr
dropped = record faulty { is_open = false; error = some sample_errors.eof }

abbrev unit : CloudUnit
unit = record {
  name = codes "a.service";
  command = codes "start";
  enable = true;
  content = codes "x";
  sync = true;
}

abbrev config : CloudConfig
config = record {
  flavor = ubuntu;
  write_files = [];
  reboot_strategy = [];
  core_units = [];
  ssh_authorized_keys = [];
  run_cmd = codes "ls" ∷ [];
  mounts = [];
  units = unit ∷ [];
}

abbrev join : Text → Text → Text
join a b = a ++ codes "/" ++ b

abbrev three : System
three = (start 3 new).1

abbrev fills : Fill SampleErr
fills = record { temp_file = ok (codes "/tmp/f"); copy = none; seek = some sample_errors.eof }

abbrev disk : Disk
disk = record { files = codes "/tmp/other" ∷ []; rc_closes = 0 }
