-- ===== src/Ec2/Boot/Scripts.antt =====
-- ec2system/ec2machine.go: the lines of the templates of cloudConfig, without their common tabs.
use bigmachine.Prelude.{List, [], ◌∷◌, ◌++◌, Text, codes}

abbrev pub format_one_lines : List Text
format_one_lines =
    codes "[Unit]"
    ∷ codes "Description=Format /dev/{{.name}}"
    ∷ codes "After=dev-{{.name}}.device"
    ∷ codes "Requires=dev-{{.name}}.device"
    ∷ codes "[Service]"
    ∷ codes "Type=oneshot"
    ∷ codes "RemainAfterExit=yes"
    ∷ codes "ExecStart=/usr/bin/env wipefs -f /dev/{{.name}}"
    ∷ codes "ExecStart=/usr/bin/env mkfs.ext4 -F /dev/{{.name}}"
    ∷ []

abbrev pub format_many_lines : List Text
format_many_lines =
    codes "[Unit]"
    ∷ codes "Description=Format /dev/{{.md}}"
    ∷ codes "After={{range $_, $name :=  .devices}}dev-{{$name}}.device {{end}}"
    ∷ codes "Requires={{range $_, $name := .devices}}dev-{{$name}}.device {{end}}"
    ∷ codes "[Service]"
    ∷ codes "Type=oneshot"
    ∷ codes "RemainAfterExit=yes"
    ∷ (codes
          "ExecStart=/usr/bin/env mdadm --create --run --verbose /dev/{{.md}} --level=0 --chunk=256 "
        ++ codes "--name=bigmachine --raid-devices={{.devices|len}} "
        ++ codes "{{range $_, $name := .devices}}/dev/{{$name}} {{end}}")
    ∷ codes "ExecStart=/usr/bin/env mkfs.ext4 -F /dev/{{.md}}"
    ∷ []

abbrev pub mount_lines : List Text
mount_lines =
    codes "[Unit]"
    ∷ codes "After=format-{{.name}}.service"
    ∷ codes "Requires=format-{{.name}}.service"
    ∷ codes "[Mount]"
    ∷ codes "What=/dev/{{.name}}"
    ∷ codes "Where=/mnt/data"
    ∷ codes "Type=ext4"
    ∷ codes "Options=data=writeback"
    ∷ []

abbrev pub sysctl_lines : List Text
sysctl_lines = codes "fs.file-max = {{.filemax}}" ∷ codes "fs.nr_open = {{.nropen}}" ∷ []

abbrev pub script_lines : List Text
script_lines =
    codes "#!/bin/bash"
    ∷ codes "set -e"
    ∷ codes "systemctl set-default poweroff.target"
    ∷ codes "bin=/tmp/ec2boot"
    ∷ codes "curl -s {{.binary}} >$bin"
    ∷ codes "chmod +x $bin"
    ∷ codes "export BIGMACHINE_MODE=machine"
    ∷ codes "export BIGMACHINE_SYSTEM=ec2"
    ∷ codes "export BIGMACHINE_ADDR=:{{443}}"
    ∷ codes "$bin -log=debug || true"
    ∷ codes "sleep 30"
    ∷ codes "exit 1"
    ∷ []

abbrev pub update_sysctl_lines : List Text
update_sysctl_lines =
    codes "[Unit]"
    ∷ codes "Description=Update sysctl"
    ∷ codes "[Service]"
    ∷ codes "ExecStart={{.sysctlPath}} /etc/sysctl.d/90-bigmachine"
    ∷ []

abbrev pub bootmachine_lines : List Text
bootmachine_lines =
    codes "[Unit]"
    ∷ codes "Description=bootmachine"
    ∷ codes "Requires=network.target"
    ∷ codes "After=network.target"
    ∷ codes "{{if .data}}"
    ∷ codes "After=mnt-data.mount"
    ∷ codes "Requires=mnt-data.mount"
    ∷ codes "{{end}}"
    ∷ codes "{{if .mortal}}"
    ∷ codes "OnFailure=poweroff.target"
    ∷ codes "OnFailureJobMode=replace-irreversibly"
    ∷ codes "{{end}}"
    ∷ codes "[Service]"
    ∷ codes "OOMScoreAdjust=1000"
    ∷ codes "Type=oneshot"
    ∷ codes "LimitNOFILE={{.nropen}}"
    ∷ codes "{{.environ}}"
    ∷ codes "ExecStart=/opt/bin/bootmachine"
    ∷ []
