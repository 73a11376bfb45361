-- ===== src/Setup/Steps.antt =====
-- init.rs: the lines that `run` prints at its end.
use loophole.Base.{Bool, List, [], ◌∷◌, ◌++◌, if◌then◌else◌}
use loophole.Text.{Text, codes}
use loophole.Setup.Template.{server_command}

abbrev network_steps : Text → List Text
network_steps domain =
    codes "Next steps:"
    ∷ codes ""
    ∷ codes "  1. → Configure DNS"
    ∷ codes "     Add a wildcard A record pointing to your server:"
    ∷ (codes "       *." ++ (domain ++ codes "  A  <your-server-ip>"))
    ∷ codes ""
    ∷ codes "  2. → Open firewall ports"
    ∷ codes "     The server needs ports 80 (HTTP) and 443 (HTTPS) open:"
    ∷ codes "       sudo ufw allow 80/tcp && sudo ufw allow 443/tcp"
    ∷ codes "     or:"
    ∷ codes "       sudo firewall-cmd --add-port=80/tcp --add-port=443/tcp --permanent"
    ∷ codes ""
    ∷ []

abbrev installed_steps : List Text
installed_steps =
    codes "  3. → Check service status"
    ∷ codes "       sudo systemctl status loophole"
    ∷ codes ""
    ∷ []

abbrev manual_steps : Text → List Text
manual_steps config_path =
    codes "  3. → Start the server"
    ∷ (codes "       " ++ server_command (codes "loophole") config_path)
    ∷ codes ""
    ∷ codes "  4. → (Optional) Set up systemd service"
    ∷ codes "     Create /etc/systemd/system/loophole.service with:"
    ∷ codes ""
    ∷ codes "       [Unit]"
    ∷ codes "       Description=Loophole Tunnel Server"
    ∷ codes "       After=network.target"
    ∷ codes ""
    ∷ codes "       [Service]"
    ∷ codes "       Type=simple"
    ∷ (codes "       ExecStart=" ++ server_command (codes "/usr/local/bin/loophole") config_path)
    ∷ codes "       Restart=always"
    ∷ codes "       RestartSec=5"
    ∷ codes ""
    ∷ codes "       [Install]"
    ∷ codes "       WantedBy=multi-user.target"
    ∷ codes ""
    ∷ codes "     Then enable and start:"
    ∷ codes "       sudo systemctl enable --now loophole"
    ∷ codes ""
    ∷ []

abbrev pub login_command : Text → Text → Text
login_command domain token =
    codes "loophole login --server " ++ (domain ++ (codes " --token " ++ token))

abbrev client_steps : Text → Text → List Text
client_steps domain token =
    codes "Connect a client:"
    ∷ codes ""
    ∷ codes "  Store your credentials with the login command:"
    ∷ codes ""
    ∷ (codes "    " ++ login_command domain token)
    ∷ codes ""
    ∷ codes "  Test your connection:"
    ∷ codes ""
    ∷ codes "    loophole test"
    ∷ codes ""
    ∷ codes "  Expose a local service:"
    ∷ codes ""
    ∷ codes "    loophole expose --subdomain myapp --port 3000"
    ∷ codes ""
    ∷ codes "Monitor server status:"
    ∷ codes ""
    ∷ codes "    loophole status"
    ∷ []

unfoldable pub next_steps : Text → Text → Text → Bool → List Text
next_steps domain token config_path installed =
    network_steps domain
    ++ ((if installed then installed_steps else manual_steps config_path)
        ++ client_steps domain token)
